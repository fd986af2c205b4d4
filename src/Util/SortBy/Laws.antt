-- ===== src/Util/SortBy/Laws.antt =====
-- The laws of a comparison function, for `sortBy`.
use data_plane_gateway.Prelude.{
  ◌≡◌, refl, Bool, true, false, List, [], ◌∷◌, All, arith, Bool-cases, inl, inr,
}
use data_plane_gateway.Prelude.Int.{pos, neg, is_nonpos}
use data_plane_gateway.Util.SortBy.{sort_by}

-- A strict order, in which any two values that `D` admits are equal or comparable.
pub record IsStrictOrder {ℓ κ} {V : Type ℓ} (lt : V → V → Bool) (D : V → Type κ)
    : Type (ℓ ⊔ κ) where
  pub irrefl : (x : V) → lt x x ≡ false
  pub trans : (x y z : V) → lt x y ≡ true → lt y z ≡ true → lt x z ≡ true
  pub connected : (x y : V) → D x → D y → lt x y ≡ false → lt y x ≡ false → x ≡ y

module _ {ℓ μ} {V : Type ℓ} {lt : V → V → Bool} {D : V → Type μ} (o : IsStrictOrder lt D) where
  pub lt_asymm : (x y : V) → lt x y ≡ true → lt y x ≡ false
  lt_asymm x y h = elim (Bool-cases (lt y x)) [
    | inl k ↦ ground (arith, o.trans x y x h k, o.irrefl x)
    | inr k ↦ k
  ]

module _ {ℓ κ μ} {T : Type ℓ} {V : Type κ} (lt : V → V → Bool) (D : V → Type μ)
    (o : IsStrictOrder lt D) where
  -- `D` admits the value of every field.
  abbrev pub HasFields : List (T → V) → T → Type μ
  HasFields fields a = All (λ f. D (f a)) fields

  abbrev pub SameFields : List (T → V) → T → T → Type κ
  SameFields fields a b = All (λ f. f a ≡ f b) fields

  -- For any strict `<`, comparing the other way round changes the sign of the result, whatever the
  -- fields hold, values that compare with nothing included.
  pub sort_by-neg :
      (fields : List (T → V)) (a b : T) → sort_by lt fields b a ≡ neg (sort_by lt fields a b)
  unfolding sort_by
  sort_by-neg [] a b = refl
  sort_by-neg (f ∷ fields) a b =
      ground (arith, sort_by-neg fields a b, lt_asymm o (f a) (f b), lt_asymm o (f b) (f a))

  pub sort_by-same :
      (fields : List (T → V)) (a b : T) → SameFields fields a b → sort_by lt fields a b ≡ pos 0
  unfolding sort_by
  sort_by-same [] a b h = refl
  sort_by-same (f ∷ fields) a b (e, h) = rw (e, o.irrefl (f b)) (sort_by-same fields a b h)

  -- Values whose fields are all given compare as equal only if all their fields are equal.
  pub sort_by-zero :
      (fields : List (T → V)) (a b : T)
      → HasFields fields a
      → HasFields fields b
      → sort_by lt fields a b ≡ pos 0
      → SameFields fields a b
  unfolding sort_by
  sort_by-zero [] a b ha hb h = tt
  sort_by-zero (f ∷ fields) a b (da, ha) (db, hb) h =
      (ground (arith, o.connected (f a) (f b) da db), sort_by-zero fields a b ha hb (ground arith))

  -- Over given fields "not after" is transitive, so that sorting by any list of fields is well
  -- defined.
  pub sort_by_trans :
      (fields : List (T → V)) (a b c : T)
      → HasFields fields a
      → HasFields fields b
      → HasFields fields c
      → is_nonpos (sort_by lt fields a b) ≡ true
      → is_nonpos (sort_by lt fields b c) ≡ true
      → is_nonpos (sort_by lt fields a c) ≡ true
  unfolding sort_by
  sort_by_trans [] a b c ha hb hc p q = refl
  sort_by_trans (f ∷ fields) a b c (da, ha) (db, hb) (dc, hc) p q = ground (
    arith,
    sort_by_trans fields a b c ha hb hc,
    o.connected (f a) (f b) da db,
    o.connected (f b) (f c) db dc,
    o.trans (f a) (f b) (f c),
    lt_asymm o (f a) (f c),
  )
