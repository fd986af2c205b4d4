-- ===== src/Text/Split.antt =====
-- String.prototype.split with a string separator, as client/src/streams.ts calls it.
pub mod Laws
use data_plane_gateway.Prelude.{ℕ, zero, suc, ◌-◌, Bool, true, false, List, [], ◌∷◌, map, length}
use data_plane_gateway.Text.{Text, starts_with}

-- Puts a code unit in front of the first part.
unfoldable pub push : ℕ → List Text → List Text
push c [] = (c ∷ []) ∷ []
push c (p ∷ ps) = (c ∷ p) ∷ ps

-- The scan from left to right behind a separator: `skip` code units of it are still to be passed.
unfoldable pub cut : Text → ℕ → Text → List Text
cut sep skip [] = [] ∷ []
cut sep (suc skip) (c ∷ s) = cut sep skip s
cut sep zero (c ∷ s) = elim (starts_with sep (c ∷ s)) [
  | true ↦ [] ∷ cut sep (length sep - 1) s
  | false ↦ push c (cut sep zero s)
]

-- s.split(sep): an empty separator cuts between all code units.
unfoldable pub split : Text → Text → List Text
unfolding cut push
split s [] = map (λ c. c ∷ []) s
split s (a ∷ sep) = cut (a ∷ sep) 0 s
