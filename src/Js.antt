-- ===== src/Js.antt =====
-- What client/src uses of JavaScript itself: values that are thrown, functions that return or
-- throw, and the test of a value for truth.
use data_plane_gateway.Prelude.{
  ◌≡◌, refl, Bool, true, false, Option, none, some, List, [], ◌∷◌, ◌⊎◌, inl, inr,
}
use data_plane_gateway.Text.{Text}

-- A `TypeError`, a `SyntaxError`, the DOMException of `atob`, a failure of the network, and
-- a string, as `throw` takes one.
pub data Thrown : Type 0 where
  type_error syntax_error invalid_character network_error : Thrown
  message : Text → Thrown

pub data Outcome {ℓ} (A : Type ℓ) : Type ℓ where
  returned : A → Outcome A
  thrown : Thrown → Outcome A

infixl 5 ◌>>=◌
abbrev pub ◌>>=◌ {ℓ κ} : {A : Type ℓ} {B : Type κ} → Outcome A → (A → Outcome B) → Outcome B
returned a >>= f = f a
thrown e >>= f = thrown e

-- xs.map(f), where `f` may throw
abbrev pub map_outcome {ℓ κ} :
    {A : Type ℓ} {B : Type κ} → (A → Outcome B) → List A → Outcome (List B)
map_outcome f [] = returned []
map_outcome f (x ∷ xs) = f x >>= λ y. map_outcome f xs >>= λ ys. returned (y ∷ ys)

-- A type of values that can stand as a condition and be printed by `JSON.stringify`.
pub record Value {ℓ} (A : Type ℓ) : Type ℓ where
  pub truthy : A → Bool
  pub stringify : A → Text

-- `undefined` is no value, and is false.
abbrev pub holds {ℓ} : {A : Type ℓ} ⦃v : Value A⦄ → Option A → Bool
holds none = false
holds ⦃v⦄ (some a) = v.truthy a

pub Outcome-cases {ℓ} :
    {A : Type ℓ} (o : Outcome A) → ((a : A) × (o ≡ returned a)) ⊎ ((e : Thrown) × (o ≡ thrown e))
Outcome-cases (returned a) = inl (a, refl)
Outcome-cases (thrown e) = inr (e, refl)

-- An array counts as true. No code of the client prints one of those that it makes.
instance abbrev pub array_value {ℓ} : {A : Type ℓ} → Value (List A)
array_value = record { truthy = λ l. true; stringify = λ l. [] }
