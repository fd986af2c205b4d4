-- ===== src/Base64.antt =====
-- The global function `atob` of the browser, which client/src/streams.ts calls: the forgiving
-- base64 decoder. `none` is the exception that it throws. `btoa` is the encoder of the gateway,
-- which the client only reads.
pub mod RoundTrip
use data_plane_gateway.Prelude.{
  ℕ, zero, suc, ◌+◌, ◌-◌, ◌*◌, ◌/◌, ◌%◌, Bool, true, false, ◌&&◌, ◌||◌, not, Option, none, some,
  List, [], ◌∷◌, ◌++◌, length, ltb, leb, ◌==◌, if◌then◌else◌,
}
use data_plane_gateway.Text.{Text}

-- The six bits that a character of the alphabet stands for.
unfoldable pub sextet : ℕ → Option ℕ
sextet c =
    if leb b'A' c && leb c b'Z'
    then some (c - 65)
    else if leb b'a' c && leb c b'z'
    then some (c - 71)
    else if leb b'0' c && leb c b'9'
    then some (c + 4)
    else if c == b'+'
    then some 62
    else if c == b'/'
    then some 63
    else none

abbrev pub is_ascii_space : ℕ → Bool
is_ascii_space c = c == 9 || c == 10 || c == 12 || c == 13 || c == 32

unfoldable pub strip_space : Text → Text
strip_space [] = []
strip_space (c ∷ s) = let rest = strip_space s in if is_ascii_space c then rest else c ∷ rest

-- Drops one or two `=` at the end.
unfoldable pub drop_padding : Text → Text
drop_padding [] = []
drop_padding (c ∷ []) = if c == b'=' then [] else c ∷ []
drop_padding (c ∷ d ∷ []) = if d == b'=' then (if c == b'=' then [] else c ∷ []) else c ∷ d ∷ []
drop_padding (c ∷ d ∷ e ∷ s) = c ∷ drop_padding (d ∷ e ∷ s)

unfoldable pub sextets : Text → Option (List ℕ)
unfolding sextet
sextets [] = some []
sextets (c ∷ s) = elim (sextet c) [
  | none ↦ none
  | some n ↦ elim (sextets s) [ none ↦ none | some ns ↦ some (n ∷ ns) ]
]

-- Four groups of six bits are three bytes. Bits that are left over are dropped.
unfoldable pub pack : List ℕ → List ℕ
pack (a ∷ b ∷ c ∷ d ∷ ns) = (a * 4 + b / 16) ∷ (b % 16 * 16 + c / 4) ∷ (c % 4 * 64 + d) ∷ pack ns
pack (a ∷ b ∷ c ∷ []) = (a * 4 + b / 16) ∷ (b % 16 * 16 + c / 4) ∷ []
pack (a ∷ b ∷ []) = (a * 4 + b / 16) ∷ []
pack _ = []

-- The text without its padding, which is dropped only from a length that is a multiple of 4.
unfoldable pub unpadded : Text → Text
unfolding drop_padding
unpadded s = if length s % 4 == 0 then drop_padding s else s

unfoldable pub decode_unpadded : Text → Option (List ℕ)
unfolding sextets pack
decode_unpadded s =
    if length s % 4 == 1 then none else elim (sextets s) [ none ↦ none | some ns ↦ some (pack ns) ]

unfoldable pub atob : Text → Option (List ℕ)
unfolding strip_space unpadded decode_unpadded
atob s = decode_unpadded (unpadded (strip_space s))

-- The character of the alphabet for six bits.
unfoldable pub to_char : ℕ → ℕ
to_char n =
    if ltb n 26
    then n + 65
    else if ltb n 52
    then n + 71
    else if ltb n 62
    then n - 4
    else if n == 62
    then b'+'
    else b'/'

unfoldable pub btoa : List ℕ → Text
unfolding to_char
btoa (a ∷ b ∷ c ∷ bs) =
    to_char (a / 4)
    ∷ to_char (a % 4 * 16 + b / 16)
    ∷ to_char (b % 16 * 4 + c / 64)
    ∷ to_char (c % 64)
    ∷ btoa bs
btoa (a ∷ b ∷ []) =
    to_char (a / 4) ∷ to_char (a % 4 * 16 + b / 16) ∷ to_char (b % 16 * 4) ∷ b'=' ∷ []
btoa (a ∷ []) = to_char (a / 4) ∷ to_char (a % 4 * 16) ∷ b'=' ∷ b'=' ∷ []
btoa [] = []
