-- ===== src/Util/SortBy.antt =====
-- `sortBy` of client/src/util.ts: a comparison function over a list of fields.
pub mod Laws
use data_plane_gateway.Prelude.{Bool, List, [], ◌∷◌, if◌then◌else◌}
use data_plane_gateway.Prelude.Int.{ℤ, pos, negsuc}

-- The loop over the fields. `lt` is `<` on their values, and `x > y` is `y < x`.
module _ {ℓ κ} {T : Type ℓ} {V : Type κ} (lt : V → V → Bool) where
  unfoldable pub sort_by : List (T → V) → T → T → ℤ
  sort_by [] a b = pos 0
  sort_by (field ∷ fields) a b =
      if lt (field b) (field a)
      then pos 1
      else if lt (field a) (field b)
      then negsuc 0
      else sort_by fields a b
