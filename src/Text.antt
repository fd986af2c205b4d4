-- ===== src/Text.antt =====
-- JavaScript strings as sequences of UTF-16 code units, with the string operations that
-- client/src uses: comparison, concatenation, `startsWith`, `endsWith` and `slice(0, -1)`.
pub mod Order
pub mod Affixes
pub mod Split
use Prim.Native.Char.{code}
use Prim.Native.String.{String}
use data_plane_gateway.Prelude.{ℕ, Bool, true, false, ◌&&◌, ◌||◌, List, [], ◌∷◌, ltb, ◌==◌}

abbrev pub Text : Type 0
Text = List ℕ

-- The code units of a literal; its code points, which are the same for the literals here.
abbrev pub codes : String → Text
codes String.[] = []
codes (String.◌∷◌ c s) = code c ∷ codes s

-- s === t
unfoldable pub text_eq : Text → Text → Bool
text_eq [] [] = true
text_eq [] (b ∷ t) = false
text_eq (a ∷ s) [] = false
text_eq (a ∷ s) (b ∷ t) = (a == b) && text_eq s t

-- s < t: the first code unit that differs decides, and a proper prefix is smaller.
unfoldable pub text_lt : Text → Text → Bool
text_lt [] [] = false
text_lt [] (b ∷ t) = true
text_lt (a ∷ s) [] = false
text_lt (a ∷ s) (b ∷ t) = ltb a b || ((a == b) && text_lt s t)

-- s.startsWith(p)
unfoldable pub starts_with : Text → Text → Bool
starts_with [] s = true
starts_with (a ∷ p) [] = false
starts_with (a ∷ p) (b ∷ s) = (a == b) && starts_with p s

-- s.endsWith(p): `p` is `s` or ends what follows its first code unit.
unfoldable pub ends_with : Text → Text → Bool
ends_with p [] = text_eq p []
ends_with p (c ∷ s) = text_eq p (c ∷ s) || ends_with p s
