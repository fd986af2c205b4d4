-- ===== src/Result.antt =====
-- client/src/result.ts: the class `Result`. A side that is not given is `undefined`, and every
-- method tests its side for truth, so that a value such as 0 or "" counts as none.
pub mod Laws
use data_plane_gateway.Prelude.{Bool, Option, none, some, ◌++◌, if◌then◌else◌}
use data_plane_gateway.Text.{Text, codes}
use data_plane_gateway.Js.{Outcome, returned, thrown, message, Value, holds}

pub record Result {ℓ κ} (T : Type ℓ) (E : Type κ) : Type (ℓ ⊔ κ) where
  pub value : Option T
  pub error : Option E

-- `${JSON.stringify(a)}`, where `undefined` prints as its name
unfoldable pub stringified {ℓ} : {A : Type ℓ} ⦃v : Value A⦄ → Option A → Text
stringified none = codes "undefined"
stringified ⦃v⦄ (some a) = v.stringify a

module _ {ℓ κ} {T : Type ℓ} {E : Type κ} where
  -- Result.Ok
  unfoldable pub new_ok : T → Result T E
  new_ok value = record { value = some value; error = none }

  -- Result.Err
  unfoldable pub new_err : E → Result T E
  new_err err = record { value = none; error = some err }

-- The value that a condition `if (a)` finds.
unfoldable pub present {ℓ} : {A : Type ℓ} ⦃v : Value A⦄ → Option A → Option A
present none = none
present ⦃v⦄ (some a) = if v.truthy a then some a else none

module _ {ℓ κ} {T : Type ℓ} {E : Type κ} ⦃t : Value T⦄ where
  -- !!this.value
  unfoldable pub ok : Result T E → Bool
  ok r = holds r.value

  unfoldable pub map {μ} : {U : Type μ} → (T → U) → Result T E → Result U E
  unfolding present
  map f r = elim (present r.value) [
    | some v ↦ record { value = some (f v); error = none }
    | none ↦ record { value = none; error = r.error }
  ]

module _ {ℓ κ} {T : Type ℓ} {E : Type κ} ⦃e : Value E⦄ where
  -- !!this.error
  unfoldable pub err : Result T E → Bool
  err r = holds r.error

  unfoldable pub map_err {μ} : {F : Type μ} → (E → F) → Result T E → Result T F
  unfolding present
  map_err f r = elim (present r.error) [
    | some x ↦ record { value = none; error = some (f x) }
    | none ↦ record { value = r.value; error = none }
  ]

module _ {ℓ κ} {T : Type ℓ} {E : Type κ} ⦃t : Value T⦄ ⦃e : Value E⦄ where
  unfoldable pub unwrap : Result T E → Outcome T
  unfolding present stringified
  unwrap r = elim (present r.value) [
    | some v ↦ returned v
    | none ↦
        thrown (
          message (codes "Attempted to unwrap an Result, but found error: " ++ stringified r.error))
  ]

  unfoldable pub unwrap_err : Result T E → Outcome E
  unfolding present stringified
  unwrap_err r = elim (present r.error) [
    | some x ↦ returned x
    | none ↦ thrown (
        message
          (codes "Attempted to unwrap an Result error, but found value: " ++ stringified r.value))
  ]
