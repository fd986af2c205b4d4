-- ===== src/Sort.antt =====
-- Array.prototype.sort with a comparison function: stable insertion, in place of the engine's
-- algorithm. For a consistent comparison function the standard leaves no other result.
pub mod Laws
use data_plane_gateway.Prelude.{List, [], ◌∷◌, if◌then◌else◌}
use data_plane_gateway.Prelude.Int.{ℤ, is_nonpos}

module _ {ℓ} {A : Type ℓ} (compare_fn : A → A → ℤ) where
  -- `x` stood in front of the list, so it stays in front of what compares equal.
  unfoldable pub insert : A → List A → List A
  insert x [] = x ∷ []
  insert x (y ∷ ys) = if is_nonpos (compare_fn x y) then x ∷ y ∷ ys else y ∷ insert x ys

  unfoldable pub sort : List A → List A
  unfolding insert
  sort [] = []
  sort (x ∷ xs) = insert x (sort xs)
