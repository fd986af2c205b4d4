-- ===== src/Utf8/RoundTrip.antt =====
-- Decoding UTF-8 against encoding it, whole and in pieces.
use data_plane_gateway.Prelude.{
  ℕ, ◌<◌, ◌≤◌, ◌≡◌, refl, sym, ap, ◌∙◌, ◌⊎◌, List, [], ◌∷◌, ◌++◌, append-nil, append_assoc, All,
  arith,
}
use data_plane_gateway.Utf8.{
  Decoder, idle, next_byte, run, drop_mark, to_units, decode_points, decode, encode_point, encode,
}

-- A Unicode scalar value: no surrogate.
abbrev pub IsScalar : ℕ → Type 0
IsScalar c = (c < 0xd800) ⊎ (0xe000 ≤ c) × (c < 0x110000)

pub run-append :
    (d : Decoder) (a b : List ℕ)
    → run d (a ++ b) ≡ ((run (run d a).0 b).0, (run d a).1 ++ (run (run d a).0 b).1)
unfolding run
run-append d [] b = refl
run-append d (x ∷ a) b = rw (run-append (next_byte d x).0 a b) (
    ap (λ l. ((run (run (next_byte d x).0 a).0 b).0, l)) (sym (append_assoc (next_byte d x).1 _ _)))

run-encode_point : (c : ℕ) → IsScalar c → run idle (encode_point c) ≡ (idle, c ∷ [])
unfolding run encode_point
run-encode_point c h = ground arith

run-encode : (cs : List ℕ) → All IsScalar cs → run idle (encode cs) ≡ (idle, cs)
unfolding encode
run-encode [] h = unfold run in refl
run-encode (c ∷ cs) (hc, h) =
    rw (run-append idle (encode_point c) (encode cs), run-encode_point c hc, run-encode cs h)

-- Bytes that end between characters may be decoded apart from those that follow.
pub decode_points-append :
    (cs : List ℕ) (bs : List ℕ)
    → All IsScalar cs
    → decode_points (encode cs ++ bs) ≡ cs ++ decode_points bs
unfolding decode_points
decode_points-append cs bs h =
    rw (run-append idle (encode cs) bs, run-encode cs h) (append_assoc cs _ _)

pub decode_points-encode : (cs : List ℕ) → All IsScalar cs → decode_points (encode cs) ≡ cs
unfolding decode_points
decode_points-encode cs h = rw (run-encode cs h, append-nil cs)

-- The text of any characters that do not begin with a byte order mark is read back.
pub decode-encode :
    (cs : List ℕ) → All IsScalar cs → drop_mark cs ≡ cs → decode (encode cs) ≡ to_units cs
decode-encode cs h m =
    decode_lem (encode cs)
    ∙ ap (λ l. to_units (drop_mark l)) (decode_points-encode cs h)
    ∙ ap to_units m
  where
    decode_lem : (bs : List ℕ) → decode bs ≡ to_units (drop_mark (decode_points bs))
    decode_lem bs = unfold decode in refl
