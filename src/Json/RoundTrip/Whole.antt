-- ===== src/Json/RoundTrip/Whole.antt =====
-- Whole texts of JSON: the fuel of `parse` against the length of what `stringify` prints.
use data_plane_gateway.Prelude.{
  ◌+◌, ◌*◌, ◌≤◌, ◌≡◌, sym, ap, ◌∙◌, true, false, some, [], ◌∷◌, ◌++◌, append-nil, arith, length,
  length-append,
}
use data_plane_gateway.Json.{
  Json, null, bool, num, str, arr, obj, Items, nil, cons, Fields, end, field,
}
use data_plane_gateway.Json.Stringify.{
  stringify_text, stringify, stringify_more_items, stringify_more_fields,
}
use data_plane_gateway.Json.Scan.{skip_space}
use data_plane_gateway.Json.Parse.{read_value, parse}
use data_plane_gateway.Json.RoundTrip.Numbers.{IsNumber-nil}
use data_plane_gateway.Json.RoundTrip.Values.{
  IsJson, AreJson, AreMembers, need, need_items, need_fields,
}
use data_plane_gateway.Json.RoundTrip.Nested.{value_lem}

mutual
  unfolding IsJson need stringify stringify_text

  need-stringify : (v : Json) → IsJson v → 2 + need v ≤ length (stringify v) * 3
  need-stringify null h = omega arith
  need-stringify (bool true) h = omega arith
  need-stringify (bool false) h = omega arith
  need-stringify (num []) h = absurd (IsNumber-nil h)
  need-stringify (num (c ∷ n)) h = omega arith
  need-stringify (str s) h = omega arith
  need-stringify (arr nil) h = omega arith
  need-stringify (arr (cons v vs)) (hv, h) = ground (
    arith,
    need-stringify v hv,
    need-more_items vs h,
    length-append (stringify v) (stringify_more_items vs),
  )
  need-stringify (obj end) h = omega arith
  need-stringify (obj (field k v fs)) (hk, hv, e, h) = ground (
    arith,
    need-stringify v hv,
    need-more_fields fs h,
    length-append (stringify_text k) (b':' ∷ (stringify v ++ stringify_more_fields fs)),
    length-append (stringify v) (stringify_more_fields fs),
  )

  need-more_items :
      (vs : Items) → AreJson vs → 3 + need_items vs ≤ length (stringify_more_items vs) * 3
  need-more_items nil h = omega arith
  need-more_items (cons v vs) (hv, h) = ground (
    arith,
    need-stringify v hv,
    need-more_items vs h,
    length-append (stringify v) (stringify_more_items vs),
  )

  need-more_fields :
      (fs : Fields) → AreMembers fs → 3 + need_fields fs ≤ length (stringify_more_fields fs) * 3
  need-more_fields end h = omega arith
  need-more_fields (field k v fs) (hk, hv, e, h) = ground (
    arith,
    need-stringify v hv,
    need-more_fields fs h,
    length-append (stringify_text k) (b':' ∷ (stringify v ++ stringify_more_fields fs)),
    length-append (stringify v) (stringify_more_fields fs),
  )

-- Every value that can be printed is read back from what is printed.
pub parse-stringify : (v : Json) → IsJson v → parse (stringify v) ≡ some v
parse-stringify v h = unfold parse skip_space in rw read_whole
  where
    fuel : 2 + need v ≤ length (stringify v) * 3 → 2 + need v ≤ length (stringify v) * 3 + 3
    fuel k = omega arith

    read_whole : read_value (length (stringify v) * 3 + 3) (stringify v) ≡ some (v, [])
    read_whole =
        ap (read_value (length (stringify v) * 3 + 3)) (sym (append-nil (stringify v)))
        ∙ value_lem v (length (stringify v) * 3 + 3) [] h (fuel (need-stringify v h)) tt
