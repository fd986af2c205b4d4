-- ===== src/Json/Scan.antt =====
-- The tokens of JSON: space, numbers and strings, as `JSON.parse` reads them. `none` is the
-- `SyntaxError`.
use data_plane_gateway.Prelude.{
  ℕ, zero, suc, ◌+◌, ◌-◌, ◌*◌, Bool, true, false, ◌&&◌, ◌||◌, ◌++◌, Option, none, some, [], ◌∷◌,
  ltb, leb, ◌==◌, if◌then◌else◌,
}
use data_plane_gateway.Text.{Text}
use data_plane_gateway.Json.Stringify.{quote, backslash}

infixl 5 ◌>>=◌
abbrev pub ◌>>=◌ {ℓ κ} : {A : Type ℓ} {B : Type κ} → Option A → (A → Option B) → Option B
none >>= f = none
some a >>= f = f a

abbrev pub is_space : ℕ → Bool
is_space c = c == 32 || c == 9 || c == 10 || c == 13

unfoldable pub skip_space : Text → Text
skip_space [] = []
skip_space (c ∷ s) = if is_space c then skip_space s else c ∷ s

-- Passes one code unit.
unfoldable pub expect : ℕ → Text → Option Text
expect c [] = none
expect c (d ∷ s) = if d == c then some s else none

unfoldable pub expect_all : Text → Text → Option Text
unfolding expect
expect_all [] s = some s
expect_all (c ∷ w) s = expect c s >>= expect_all w

abbrev pub is_digit : ℕ → Bool
is_digit c = leb b'0' c && leb c b'9'

-- Where the scan of a number stands.
pub data Number : Type 0 where
  start signed zeroed whole point fraction exponent exponent_signed power : Number

-- Whether a number may end here.
abbrev pub may_end : Number → Bool
may_end zeroed = true
may_end whole = true
may_end fraction = true
may_end power = true
may_end _ = false

abbrev exponent_mark : ℕ → Option Number
exponent_mark c = if c == b'e' || c == b'E' then some exponent else none

-- The state behind one more code unit.
unfoldable pub number_step : Number → ℕ → Option Number
number_step start c =
    if c == b'-'
    then some signed
    else if c == b'0'
    then some zeroed
    else if is_digit c
    then some whole
    else none
number_step signed c = if c == b'0' then some zeroed else if is_digit c then some whole else none
number_step zeroed c = if c == b'.' then some point else exponent_mark c
number_step whole c =
    if is_digit c then some whole else if c == b'.' then some point else exponent_mark c
number_step point c = if is_digit c then some fraction else none
number_step fraction c = if is_digit c then some fraction else exponent_mark c
number_step exponent c =
    if c == b'+' || c == b'-' then some exponent_signed else if is_digit c then some power else none
number_step exponent_signed c = if is_digit c then some power else none
number_step power c = if is_digit c then some power else none

-- The longest literal of a number, and the rest of the text.
unfoldable pub read_number : Number → Text → Text → Option (Text × Text)
unfolding number_step
read_number st out [] = if may_end st then some (out, []) else none
read_number st out (c ∷ s) = elim (number_step st c) [
  | some st' ↦ read_number st' (out ++ c ∷ []) s
  | none ↦ if may_end st then some (out, c ∷ s) else none
]

unfoldable pub hex_value : ℕ → Option ℕ
hex_value c =
    if is_digit c
    then some (c - b'0')
    else if leb b'a' c && leb c b'f'
    then some (c - 87)
    else if leb b'A' c && leb c b'F'
    then some (c - 55)
    else none

unfoldable pub escaped_unit : ℕ → Option ℕ
escaped_unit c =
    if c == quote || c == backslash || c == b'/'
    then some c
    else if c == b'b'
    then some 8
    else if c == b't'
    then some 9
    else if c == b'n'
    then some 10
    else if c == b'f'
    then some 12
    else if c == b'r'
    then some 13
    else none

-- Where the scan of a string stands: `hex k n` has `suc k` more digits to read behind `n`.
pub data Quoted : Type 0 where
  plain escaped : Quoted
  hex : ℕ → ℕ → Quoted

-- The string up to its closing quote, and the rest of the text.
unfoldable pub read_string : Quoted → Text → Text → Option (Text × Text)
unfolding hex_value escaped_unit
read_string st out [] = none
read_string plain out (c ∷ s) =
    let next = read_string escaped out s in
    let same = read_string plain (out ++ c ∷ []) s in
    if c == quote
    then some (out, s)
    else if c == backslash
    then next
    else if ltb c 32
    then none
    else same
read_string escaped out (c ∷ s) =
    let digits = read_string (hex 3 0) out s in
    let unit = escaped_unit c >>= λ d. read_string plain (out ++ d ∷ []) s in
    if c == b'u' then digits else unit
read_string (hex zero n) out (c ∷ s) =
    hex_value c >>= λ d. read_string plain (out ++ (n * 16 + d) ∷ []) s
read_string (hex (suc k) n) out (c ∷ s) =
    hex_value c >>= λ d. read_string (hex k (n * 16 + d)) out s
