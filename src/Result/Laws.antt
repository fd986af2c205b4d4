-- ===== src/Result/Laws.antt =====
-- The laws of client/src/result.ts: which side a result shows, and what the methods do to it.
use data_plane_gateway.Prelude.{
  ◌≡◌, refl, ◌⊎◌, ◌↔◌, inl, inr, true, false, Option, none, some, arith, ◌++◌, Option-cases,
  Bool-cases,
}
use data_plane_gateway.Text.{codes}
use data_plane_gateway.Js.{returned, thrown, message, Value, holds}
use data_plane_gateway.Result.{
  Result, new_ok, new_err, ok, err, unwrap, unwrap_err, map, map_err, present,
}

-- What the constructors and the methods keep: no result has both sides.
abbrev pub IsOneSided {ℓ κ} : {T : Type ℓ} {E : Type κ} → Result T E → Type (ℓ ⊔ κ)
IsOneSided r = (r.value ≡ none) ⊎ (r.error ≡ none)

-- A side either counts as true, and is found, or does not.
abbrev Present {ℓ} : {A : Type ℓ} ⦃v : Value A⦄ → Option A → Type ℓ
Present {A} o =
    ((a : A) × (holds o ≡ true) × (present o ≡ some a)) ⊎ ((holds o ≡ false) × (present o ≡ none))

Present-cases {ℓ} : {A : Type ℓ} ⦃v : Value A⦄ (o : Option A) → Present o
unfolding present
Present-cases none = inr (refl, refl)
Present-cases ⦃v⦄ (some a) = elim (Bool-cases (v.truthy a)) [
  | inl h ↦ inl (a, h, rw h)
  | inr h ↦ inr (h, rw h)
]

module _ {ℓ κ} {T : Type ℓ} {E : Type κ} ⦃t : Value T⦄ ⦃e : Value E⦄ where
  -- A value or an error that is put into a result is there again exactly if it counts as true:
  -- then `unwrap` returns the value, and `unwrap_err` the error.
  pub unwrap-new_iff :
      (v : T) (x : E)
      → ((unwrap (new_ok {E = E} v) ≡ returned v) ↔ (t.truthy v ≡ true))
        × ((unwrap_err (new_err {T = T} x) ≡ returned x) ↔ (e.truthy x ≡ true))
  unfolding unwrap unwrap_err new_ok new_err
  unwrap-new_iff v x = ground arith

  -- A result of a value that counts as false, such as 0, "" or false, looks like no result at all:
  -- neither `ok` nor `err` holds of it, and both `unwrap` and `unwrap_err` throw.
  pub new_ok_falsy :
      (v : T)
      → t.truthy v ≡ false
      → (ok (new_ok {E = E} v) ≡ false)
        × (err (new_ok {E = E} v) ≡ false)
        × (unwrap (new_ok {E = E} v)
            ≡ thrown (message (codes "Attempted to unwrap an Result, but found error: undefined")))
        × (unwrap_err (new_ok {E = E} v)
            ≡ thrown (
                message (
                  codes "Attempted to unwrap an Result error, but found value: " ++ t.stringify v)))
  unfolding ok err unwrap unwrap_err new_ok
  new_ok_falsy v h = (h, refl, rw (h, unwrap, present), refl)

  -- `ok` and `err` tell before the call whether `unwrap` and `unwrap_err` throw.
  pub ok_iff_unwrap :
      (r : Result T E)
      → ((ok r ≡ true) ↔ ((v : T) × (unwrap r ≡ returned v)))
        × ((err r ≡ true) ↔ ((x : E) × (unwrap_err r ≡ returned x)))
  unfolding ok err unwrap unwrap_err
  ok_iff_unwrap r = (value_side (Present-cases r.value), error_side (Present-cases r.error))
    where
      value_side : Present r.value → (ok r ≡ true) ↔ ((v : T) × (unwrap r ≡ returned v))
      value_side (inl (v, h, p)) = (λ _. (v, rw (p, unwrap)), λ _. h)
      value_side (inr (h, p)) = (λ k. cc, λ (v, k). cc (rw (p, unwrap) at k))

      error_side : Present r.error → (err r ≡ true) ↔ ((x : E) × (unwrap_err r ≡ returned x))
      error_side (inl (x, h, p)) = (λ _. (x, rw (p, unwrap_err)), λ _. h)
      error_side (inr (h, p)) = (λ k. cc, λ (x, k). cc (rw (p, unwrap_err) at k))

module _ {ℓ κ μ} {T : Type ℓ} {E : Type κ} {U : Type μ} ⦃t : Value T⦄ ⦃e : Value E⦄
    ⦃u : Value U⦄ where
  pub map-IsOneSided : (f : T → U) (r : Result T E) → IsOneSided r → IsOneSided (map f r)
  unfolding map
  map-IsOneSided f r h = ground arith

  pub map_err-IsOneSided : (f : E → U) (r : Result T E) → IsOneSided r → IsOneSided (map_err f r)
  unfolding map_err
  map_err-IsOneSided f r h = ground arith

module _ {ℓ} {T E U F : Type ℓ} ⦃t : Value T⦄ ⦃e : Value E⦄ ⦃u : Value U⦄ where
  -- Mapping the value and mapping the error of a result that has one side at most commute.
  pub map-map_err :
      (f : T → U) (g : E → F) (r : Result T E)
      → IsOneSided r
      → map_err g (map f r) ≡ map f (map_err g r)
  unfolding map map_err
  map-map_err f g r h = ground arith

  -- Two maps in turn are one map of the composition, as long as the first function returns no
  -- value that counts as false.
  pub map-map :
      (f : T → U) (g : U → F) (r : Result T E)
      → ((v : T) → u.truthy (f v) ≡ true)
      → map g (map f r) ≡ map (λ v. g (f v)) r
  unfolding map
  map-map f g r h = elim (Option-cases r.value) [
    | inl e ↦ ground arith
    | inr (v, e) ↦ ground (arith, h v)
  ]
