-- ===== src/Json/RoundTrip/Lines.antt =====
-- JSON on lines: the line breaks of a printed value, for the newline-delimited JSON that client/src
-- reads.
use data_plane_gateway.Prelude.{◌≢◌, true, false, [], ◌∷◌, ◌++◌, All, All-append, arith}
use data_plane_gateway.Text.{Text}
use data_plane_gateway.Json.{
  Json, null, bool, num, str, arr, obj, Items, nil, cons, Fields, end, field,
}
use data_plane_gateway.Json.Stringify.{
  quote, quote_units, stringify_text, stringify, stringify_more_items, stringify_more_fields,
}
use data_plane_gateway.Json.Scan.{start}
use data_plane_gateway.Json.RoundTrip.Strings.{quote_units-Lacks}
use data_plane_gateway.Json.RoundTrip.Numbers.{read_number-Lacks}
use data_plane_gateway.Json.RoundTrip.Values.{IsJson, AreJson, AreMembers}

-- No line break stands in the text.
abbrev pub IsLine : Text → Type 0
IsLine = All (λ d. d ≢ 10)

append-IsLine : (s t : Text) → IsLine s → IsLine t → IsLine (s ++ t)
append-IsLine s t h k = All-append (λ d. d ≢ 10) s t h k

stringify_text-IsLine : (s : Text) → IsLine (stringify_text s)
unfolding stringify_text
stringify_text-IsLine s = (
  (λ e. ground arith),
  append-IsLine (quote_units s) (quote ∷ []) (quote_units-Lacks s) ((λ e. ground arith), tt),
)

key-IsLine : (k t : Text) → IsLine t → IsLine (stringify_text k ++ b':' ∷ t)
key-IsLine k t h =
    append-IsLine (stringify_text k) (b':' ∷ t) (stringify_text-IsLine k) ((λ e. ground arith), h)

mutual
  unfolding IsJson stringify

  pub stringify-IsLine : (v : Json) → IsJson v → IsLine (stringify v)
  stringify-IsLine null h = ground arith
  stringify-IsLine (bool true) h = ground arith
  stringify-IsLine (bool false) h = ground arith
  stringify-IsLine (num n) h = read_number-Lacks start [] n n h
  stringify-IsLine (str s) h = stringify_text-IsLine s
  stringify-IsLine (arr nil) h = ground arith
  stringify-IsLine (arr (cons v vs)) (hv, h) = (
    (λ e. ground arith),
    append-IsLine (stringify v) (stringify_more_items vs) (stringify-IsLine v hv)
        (more_items-IsLine vs h),
  )
  stringify-IsLine (obj end) h = ground arith
  stringify-IsLine (obj (field k v fs)) (hk, hv, e, h) = (
    (λ e. ground arith),
    key-IsLine k (stringify v ++ stringify_more_fields fs) (
        append-IsLine (stringify v) (stringify_more_fields fs) (stringify-IsLine v hv)
          (more_fields-IsLine fs h)),
  )

  more_items-IsLine : (vs : Items) → AreJson vs → IsLine (stringify_more_items vs)
  more_items-IsLine nil h = ground arith
  more_items-IsLine (cons v vs) (hv, h) = (
    (λ e. ground arith),
    append-IsLine (stringify v) (stringify_more_items vs) (stringify-IsLine v hv)
        (more_items-IsLine vs h),
  )

  more_fields-IsLine : (fs : Fields) → AreMembers fs → IsLine (stringify_more_fields fs)
  more_fields-IsLine end h = ground arith
  more_fields-IsLine (field k v fs) (hk, hv, e, h) = (
    (λ e. ground arith),
    key-IsLine k (stringify v ++ stringify_more_fields fs) (
        append-IsLine (stringify v) (stringify_more_fields fs) (stringify-IsLine v hv)
          (more_fields-IsLine fs h)),
  )
