-- ===== src/Json/Stringify.antt =====
-- JSON.stringify of a JSON value, with no indentation.
use data_plane_gateway.Prelude.{
  ℕ, ◌+◌, ◌/◌, ◌%◌, Bool, true, false, ◌&&◌, ◌++◌, [], ◌∷◌, ltb, leb, ◌==◌, if◌then◌else◌,
}
use data_plane_gateway.Text.{Text, codes}
use data_plane_gateway.Js.{Value}
use data_plane_gateway.Json.{
  Json, null, bool, num, str, arr, obj, Items, nil, cons, Fields, end, field, truthy,
}

abbrev pub quote : ℕ
quote = b'"'

abbrev pub backslash : ℕ
backslash = b'\\'

-- A digit in base 16, in lower case.
unfoldable pub hex_digit : ℕ → ℕ
hex_digit n = if ltb n 10 then b'0' + n else 87 + n

-- \uXXXX
unfoldable pub unicode_escape : ℕ → Text
unfolding hex_digit
unicode_escape c =
    backslash
    ∷ b'u'
    ∷ hex_digit (c / 4096 % 16)
    ∷ hex_digit (c / 256 % 16)
    ∷ hex_digit (c / 16 % 16)
    ∷ hex_digit (c % 16)
    ∷ []

abbrev pub is_high : ℕ → Bool
is_high c = leb 0xd800 c && leb c 0xdbff

abbrev pub is_low : ℕ → Bool
is_low c = leb 0xdc00 c && leb c 0xdfff

-- One code unit that is not half of a surrogate pair.
unfoldable pub quote_unit : ℕ → Text
unfolding unicode_escape
quote_unit c =
    if c == quote
    then backslash ∷ quote ∷ []
    else if c == backslash
    then backslash ∷ backslash ∷ []
    else if c == 8
    then backslash ∷ b'b' ∷ []
    else if c == 9
    then backslash ∷ b't' ∷ []
    else if c == 10
    then backslash ∷ b'n' ∷ []
    else if c == 12
    then backslash ∷ b'f' ∷ []
    else if c == 13
    then backslash ∷ b'r' ∷ []
    else if ltb c 32
    then unicode_escape c
    else if is_high c
    then unicode_escape c
    else if is_low c
    then unicode_escape c
    else c ∷ []

unfoldable pub quote_units : Text → Text
unfolding quote_unit
quote_units [] = []
quote_units (c ∷ []) = quote_unit c
quote_units (c ∷ d ∷ s) = elim (is_high c && is_low d) [
  | true ↦ c ∷ d ∷ quote_units s
  | false ↦ quote_unit c ++ quote_units (d ∷ s)
]

unfoldable pub stringify_text : Text → Text
unfolding quote_units
stringify_text s = quote ∷ (quote_units s ++ quote ∷ [])

unfoldable mutual
  unfolding stringify_text

  pub stringify : Json → Text
  stringify null = codes "null"
  stringify (bool true) = codes "true"
  stringify (bool false) = codes "false"
  stringify (num n) = n
  stringify (str s) = stringify_text s
  stringify (arr vs) = b'[' ∷ stringify_items vs
  stringify (obj fs) = b'{' ∷ stringify_fields fs

  -- The elements and the closing bracket.
  pub stringify_items : Items → Text
  stringify_items nil = b']' ∷ []
  stringify_items (cons v vs) = stringify v ++ stringify_more_items vs

  pub stringify_more_items : Items → Text
  stringify_more_items nil = b']' ∷ []
  stringify_more_items (cons v vs) = b',' ∷ (stringify v ++ stringify_more_items vs)

  pub stringify_fields : Fields → Text
  stringify_fields end = b'}' ∷ []
  stringify_fields (field k v fs) =
      stringify_text k ++ b':' ∷ (stringify v ++ stringify_more_fields fs)

  pub stringify_more_fields : Fields → Text
  stringify_more_fields end = b'}' ∷ []
  stringify_more_fields (field k v fs) =
      b',' ∷ (stringify_text k ++ b':' ∷ (stringify v ++ stringify_more_fields fs))

-- A JSON value as a condition, and printed.
instance abbrev pub json_value : Value Json
json_value = record { truthy = truthy; stringify = stringify }
