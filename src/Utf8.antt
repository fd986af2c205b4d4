-- ===== src/Utf8.antt =====
-- `TextDecoder` and `TextDecoderStream` of the browser, which client/src uses for UTF-8: what is
-- no encoding of a character becomes U+FFFD, and a byte order mark in front is dropped.
-- `encode` is the encoder on the other side, which the client only reads.
pub mod RoundTrip
use data_plane_gateway.Prelude.{
  ℕ, ◌+◌, ◌-◌, ◌*◌, ◌/◌, ◌%◌, Bool, true, false, ◌&&◌, List, [], ◌∷◌, ◌++◌, ltb, leb, ◌==◌,
  if◌then◌else◌,
}
use data_plane_gateway.Text.{Text}

-- Between characters, or `needed` bytes before the end of one, whose next byte lies in a range.
pub data Decoder : Type 0 where
  idle : Decoder
  within : (needed lower upper code_point : ℕ) → Decoder

abbrev pub replacement : ℕ
replacement = 0xfffd

-- The first byte of a character, with the code points that are decided.
unfoldable pub start_byte : ℕ → Decoder × List ℕ
start_byte b =
    if leb b 0x7f
    then (idle, b ∷ [])
    else if leb 0xc2 b && leb b 0xdf
    then (within 1 0x80 0xbf (b % 32), [])
    else if leb 0xe0 b && leb b 0xef
    then (
      within 2 (if b == 0xe0 then 0xa0 else 0x80) (if b == 0xed then 0x9f else 0xbf) (b % 16),
      [],
    )
    else if leb 0xf0 b && leb b 0xf4
    then (
      within 3 (if b == 0xf0 then 0x90 else 0x80) (if b == 0xf4 then 0x8f else 0xbf) (b % 8),
      [],
    )
    else (idle, replacement ∷ [])

abbrev pub replaced : Decoder × List ℕ → Decoder × List ℕ
replaced (d, out) = (d, replacement ∷ out)

unfoldable pub next_byte : Decoder → ℕ → Decoder × List ℕ
unfolding start_byte
next_byte idle b = start_byte b
next_byte (within needed lower upper code_point) b =
    if leb lower b && leb b upper
    then (if needed == 1
        then (idle, (code_point * 64 + b % 64) ∷ [])
        else (within (needed - 1) 0x80 0xbf (code_point * 64 + b % 64), []))
    else replaced (start_byte b)

-- The code points of some bytes, and the state behind them.
unfoldable pub run : Decoder → List ℕ → Decoder × List ℕ
unfolding next_byte
run d [] = (d, [])
run d (b ∷ bs) = let (d', out) = next_byte d b in let (d'', out') = run d' bs in (d'', out ++ out')

-- At the end of the input.
unfoldable pub end_of_input : Decoder → List ℕ
end_of_input idle = []
end_of_input (within needed lower upper code_point) = replacement ∷ []

unfoldable pub drop_mark : List ℕ → List ℕ
drop_mark [] = []
drop_mark (c ∷ cs) = if c == 0xfeff then cs else c ∷ cs

-- The code units of a code point.
unfoldable pub utf16 : ℕ → Text
utf16 c =
    if ltb c 0x10000
    then c ∷ []
    else (0xd800 + (c - 0x10000) / 0x400) ∷ (0xdc00 + (c - 0x10000) % 0x400) ∷ []

unfoldable pub to_units : List ℕ → Text
unfolding utf16
to_units [] = []
to_units (c ∷ cs) = utf16 c ++ to_units cs

-- The code points of a whole input.
unfoldable pub decode_points : List ℕ → List ℕ
unfolding run end_of_input
decode_points bs = let (d, out) = run idle bs in out ++ end_of_input d

-- new TextDecoder().decode(bytes)
unfoldable pub decode : List ℕ → Text
unfolding decode_points drop_mark to_units
decode bs = to_units (drop_mark (decode_points bs))

-- The UTF-8 encoding of a character.
unfoldable pub encode_point : ℕ → List ℕ
encode_point c =
    if ltb c 0x80
    then c ∷ []
    else if ltb c 0x800
    then (0xc0 + c / 64) ∷ (0x80 + c % 64) ∷ []
    else if ltb c 0x10000
    then (0xe0 + c / 4096) ∷ (0x80 + c / 64 % 64) ∷ (0x80 + c % 64) ∷ []
    else (0xf0 + c / 262144) ∷ (0x80 + c / 4096 % 64) ∷ (0x80 + c / 64 % 64) ∷ (0x80 + c % 64) ∷ []

unfoldable pub encode : List ℕ → List ℕ
unfolding encode_point
encode [] = []
encode (c ∷ cs) = encode_point c ++ encode cs
