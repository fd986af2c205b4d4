-- ===== src/Json/RoundTrip/Nested.antt =====
-- Arrays and objects of JSON, as they are printed and read back, and the fuel that this takes.
use data_plane_gateway.Prelude.{
  ℕ, zero, suc, ◌+◌, ◌≤◌, ◌≡◌, refl, ◌∙◌, inl, inr, true, false, none, some, ◌∷◌, ◌++◌,
  append_assoc, arith,
}
use data_plane_gateway.Text.{Text}
use data_plane_gateway.Json.{
  Json, null, bool, num, str, arr, obj, Items, nil, cons, Fields, end, field, lookup,
}
use data_plane_gateway.Json.Stringify.{
  stringify_text, stringify, stringify_more_items, stringify_more_fields,
}
use data_plane_gateway.Json.Scan.{skip_space, expect, expect_all}
use data_plane_gateway.Json.Parse.{
  read_literal, read_key, read_value, read_bare, read_items, read_elements, read_fields,
  read_members,
}
use data_plane_gateway.Json.RoundTrip.Numbers.{IsStop}
use data_plane_gateway.Json.RoundTrip.Values.{
  IsJson, AreJson, AreMembers, need, need_items, need_fields, IsHead, stringify-IsHead,
  skip_space-head, expect-head, read_value_bare, read_bare_number, read_bare_string,
  read_key_printed, put_first_new,
}

elements_last :
    (f : ℕ) (x t : Text) (v : Json)
    → read_value f x ≡ some (v, b']' ∷ t)
    → read_elements (suc f) x ≡ some (cons v nil, t)
elements_last f x t v h = unfold read_elements skip_space expect in rw h

elements_more :
    (f : ℕ) (x q t : Text) (v : Json) (vs : Items)
    → read_value f x ≡ some (v, b',' ∷ q)
    → read_elements f q ≡ some (vs, t)
    → read_elements (suc f) x ≡ some (cons v vs, t)
elements_more f x q t v vs h k = unfold read_elements skip_space expect in rw (h, k)

members_last :
    (f : ℕ) (x r t k : Text) (v : Json)
    → read_key x ≡ some (k, r)
    → read_value f r ≡ some (v, b'}' ∷ t)
    → read_members (suc f) x ≡ some (field k v end, t)
members_last f x r t k v e h = unfold read_members skip_space expect in rw (e, h)

members_more :
    (f : ℕ) (x r q t k : Text) (v : Json) (fs : Fields)
    → read_key x ≡ some (k, r)
    → read_value f r ≡ some (v, b',' ∷ q)
    → read_members f q ≡ some (fs, t)
    → lookup k fs ≡ none
    → read_members (suc f) x ≡ some (field k v fs, t)
members_more f x r q t k v fs e h m n =
    unfold read_members skip_space expect in rw (e, h, m, put_first_new k v fs n)

items_nonempty :
    (f : ℕ) (s t : Text) → IsHead s → read_items (suc f) (s ++ t) ≡ read_elements f (s ++ t)
items_nonempty f s t h =
    unfold read_items in rw (skip_space-head s t h, read_items, (expect-head s t h).0, read_items)

fields_nonempty :
    (f : ℕ) (k t : Text)
    → read_fields (suc f) (stringify_text k ++ t) ≡ read_members f (stringify_text k ++ t)
fields_nonempty f k t = unfold read_fields stringify_text skip_space expect in refl

bare_literal :
    (f : ℕ) (t : Text)
    → (read_bare (suc f) (stringify null ++ t) ≡ some (null, t))
      × (read_bare (suc f) (stringify (bool true) ++ t) ≡ some (bool true, t))
      × (read_bare (suc f) (stringify (bool false) ++ t) ≡ some (bool false, t))
unfolding read_bare read_literal expect_all expect stringify
bare_literal f t = (refl, refl, refl)

bare_empty :
    (f : ℕ) (t : Text)
    → (read_bare (suc (suc f)) (stringify (arr nil) ++ t) ≡ some (arr nil, t))
      × (read_bare (suc (suc f)) (stringify (obj end) ++ t) ≡ some (obj end, t))
unfolding read_bare read_items read_fields skip_space expect stringify
bare_empty f t = (refl, refl)

bare_array :
    (f : ℕ) (v : Json) (vs : Items) (t : Text)
    → IsJson v
    → read_elements f (stringify v ++ (stringify_more_items vs ++ t)) ≡ some (cons v vs, t)
    → read_bare (suc (suc f)) (stringify (arr (cons v vs)) ++ t) ≡ some (arr (cons v vs), t)
unfolding stringify
bare_array f v vs t hv h =
    unfold read_bare in
    rw (
      append_assoc (stringify v) (stringify_more_items vs) t,
      items_nonempty f (stringify v) (stringify_more_items vs ++ t) (stringify-IsHead v hv),
      h,
    )

bare_object :
    (f : ℕ) (k : Text) (v : Json) (fs : Fields) (t : Text)
    → read_members f (stringify_text k ++ b':' ∷ (stringify v ++ (stringify_more_fields fs ++ t)))
      ≡ some (field k v fs, t)
    → read_bare (suc (suc f)) (stringify (obj (field k v fs)) ++ t) ≡ some (obj (field k v fs), t)
unfolding stringify
bare_object f k v fs t h =
    unfold read_bare in
    rw (
      append_assoc (stringify_text k) (b':' ∷ (stringify v ++ stringify_more_fields fs)) t,
      append_assoc (stringify v) (stringify_more_fields fs) t,
      fields_nonempty f k (b':' ∷ (stringify v ++ (stringify_more_fields fs ++ t))),
      h,
    )

mutual
  unfolding IsJson need stringify

  bare_lem :
      (v : Json) (f : ℕ) (t : Text)
      → IsJson v
      → need v ≤ f
      → IsStop t
      → read_bare (suc f) (stringify v ++ t) ≡ some (v, t)
  bare_lem null f t h n s = (bare_literal f t).0
  bare_lem (bool true) f t h n s = (bare_literal f t).1
  bare_lem (bool false) f t h n s = (bare_literal f t).2
  bare_lem (num m) f t h n s = read_bare_number f m t h s
  bare_lem (str m) f t h n s = read_bare_string f m t h
  bare_lem (arr vs) zero t h n s = absurd (ground arith)
  bare_lem (arr nil) (suc f) t h n s = (bare_empty f t).0
  bare_lem (arr (cons v vs)) (suc f) t (hv, h) n s =
      bare_array f v vs t hv (items_lem v vs f t hv h (omega arith))
  bare_lem (obj fs) zero t h n s = absurd (ground arith)
  bare_lem (obj end) (suc f) t h n s = (bare_empty f t).1
  bare_lem (obj (field k v fs)) (suc f) t h n s =
      bare_object f k v fs t (fields_lem k v fs f t h (omega arith))

  pub value_lem :
      (v : Json) (f : ℕ) (t : Text)
      → IsJson v
      → 2 + need v ≤ f
      → IsStop t
      → read_value f (stringify v ++ t) ≡ some (v, t)
  value_lem v zero t h n s = absurd (ground arith)
  value_lem v (suc zero) t h n s = absurd (ground arith)
  value_lem v (suc (suc f)) t h n s =
      read_value_bare (suc f) v t h ∙ bare_lem v f t h (ground arith) s

  -- The elements behind `[`.
  items_lem :
      (v : Json) (vs : Items) (f : ℕ) (t : Text)
      → IsJson v
      → AreJson vs
      → need_items (cons v vs) ≤ f
      → read_elements f (stringify v ++ (stringify_more_items vs ++ t)) ≡ some (cons v vs, t)
  items_lem v vs zero t hv h n = absurd (ground arith)
  items_lem v nil (suc f) t hv h n =
      elements_last f _ t v (value_lem v f (b']' ∷ t) hv (ground arith) (inr (inl refl)))
  items_lem v (cons w vs) (suc f) t hv (hw, h) n =
      elements_more f _ (stringify w ++ (stringify_more_items vs ++ t)) t v (cons w vs)
        (rw (append_assoc (stringify w) (stringify_more_items vs) t) (
          value_lem v f (b',' ∷ (stringify w ++ (stringify_more_items vs ++ t))) hv (ground arith)
            (inl refl)))
        (items_lem w vs f t hw h (ground arith))

  -- The members behind `{`.
  fields_lem :
      (k : Text) (v : Json) (fs : Fields) (f : ℕ) (t : Text)
      → AreMembers (field k v fs)
      → need_fields (field k v fs) ≤ f
      → read_members f (stringify_text k ++ b':' ∷ (stringify v ++ (stringify_more_fields fs ++ t)))
        ≡ some (field k v fs, t)
  fields_lem k v fs zero t h n = absurd (ground arith)
  fields_lem k v end (suc f) t (hk, hv, e, h) n =
      members_last f _ _ t k v (read_key_printed k _ hk)
        (value_lem v f (b'}' ∷ t) hv (ground arith) (inr (inr refl)))
  fields_lem k v (field j w fs) (suc f) t (hk, hv, e, h) n =
      members_more f _ _
        (stringify_text j ++ b':' ∷ (stringify w ++ (stringify_more_fields fs ++ t))) t k v
        (field j w fs) (read_key_printed k _ hk)
        (rw
          (
            append_assoc (stringify_text j) (b':' ∷ (stringify w ++ stringify_more_fields fs)) t,
            append_assoc (stringify w) (stringify_more_fields fs) t,
          )
          (value_lem v f
            (b',' ∷ (stringify_text j ++ b':' ∷ (stringify w ++ (stringify_more_fields fs ++ t))))
            hv (ground arith) (inl refl)))
        (fields_lem j w fs f t h (ground arith)) e
