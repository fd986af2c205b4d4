-- ===== src/Prelude/Lists.antt =====
-- Lists measured by native numbers, and list functions of the JavaScript array library:
-- `slice(0, -1)`, the last element, and predicates by recursion.
use Prim.Native.Nat.{ℕ, zero, suc, ◌+◌}
use mathlib.Core.Path.{◌≡◌, refl, ap}
use mathlib.Core.Logic.{◌≢◌}
use mathlib.Core.List.{List, [], ◌∷◌, ◌++◌}
use mathlib.Core.Option.{Option, none, some}
use native.Mathlib.Omega.{arith}

module _ {ℓ} {A : Type ℓ} where
  abbrev pub length : List A → ℕ
  length [] = 0
  length (x ∷ xs) = suc (length xs)

  -- xs.slice(0, -1)
  abbrev pub init : List A → List A
  init [] = []
  init (x ∷ []) = []
  init (x ∷ y ∷ ys) = x ∷ init (y ∷ ys)

  -- xs[xs.length - 1]
  abbrev pub last? : List A → Option A
  last? [] = none
  last? (x ∷ []) = some x
  last? (x ∷ y ∷ ys) = last? (y ∷ ys)

  -- xs.slice(n)
  abbrev pub drop : ℕ → List A → List A
  drop zero xs = xs
  drop (suc n) [] = []
  drop (suc n) (x ∷ xs) = drop n xs

  pub length-append : (xs ys : List A) → length (xs ++ ys) ≡ length xs + length ys
  length-append [] ys = omega arith
  length-append (x ∷ xs) ys = omega (arith, length-append xs ys)

  pub append-ne-nil : (xs ys : List A) → ys ≢ [] → xs ++ ys ≢ []
  append-ne-nil [] ys h = h
  append-ne-nil (x ∷ xs) ys h = ground arith

  pub init-append : (xs ys : List A) → ys ≢ [] → init (xs ++ ys) ≡ xs ++ init ys
  init-append [] ys h = refl
  init-append (x ∷ []) [] h = absurd (h refl)
  init-append (x ∷ []) (y ∷ ys) h = refl
  init-append (x ∷ z ∷ zs) ys h = ap (◌∷◌ x) (init-append (z ∷ zs) ys h)

  pub init-append_last : (xs : List A) (x : A) → init (xs ++ x ∷ []) ≡ xs
  init-append_last [] x = refl
  init-append_last (y ∷ []) x = refl
  init-append_last (y ∷ z ∷ zs) x = ap (◌∷◌ y) (init-append_last (z ∷ zs) x)

  pub last?-append_last : (xs : List A) (x : A) → last? (xs ++ x ∷ []) ≡ some x
  last?-append_last [] x = refl
  last?-append_last (y ∷ []) x = refl
  last?-append_last (y ∷ z ∷ zs) x = last?-append_last (z ∷ zs) x

module _ {ℓ κ} {A : Type ℓ} (P : A → Type κ) where
  abbrev pub All : List A → Type κ
  All [] = Unit
  All (x ∷ xs) = P x × All xs

  pub All-append : (xs ys : List A) → All xs → All ys → All (xs ++ ys)
  All-append [] ys _ hy = hy
  All-append (x ∷ xs) ys (px, hx) hy = (px, All-append xs ys hx hy)
