-- ===== src/Base64/RoundTrip.antt =====
-- The decoder `atob` against the encoder, byte by byte.
use data_plane_gateway.Prelude.{
  ℕ, ◌+◌, ◌*◌, ◌/◌, ◌%◌, ◌<◌, ◌≡◌, ◌≢◌, refl, ap, ◌∙◌, false, some, List, [], ◌∷◌, length, All,
  arith, ◌==◌, map, ◌≤◌,
}
use data_plane_gateway.Text.{Text}
use data_plane_gateway.Base64.{
  sextet, strip_space, drop_padding, sextets, pack, unpadded, decode_unpadded, atob, to_char, btoa,
  is_ascii_space,
}

abbrev pub IsByte : ℕ → Type 0
IsByte b = b < 256

sextet-to_char : (n : ℕ) → n < 64 → sextet (to_char n) ≡ some n
unfolding sextet to_char
sextet-to_char n h = ground arith

to_char-not_space : (n : ℕ) → n < 64 → is_ascii_space (to_char n) ≡ false
unfolding to_char
to_char-not_space n h = ground arith

to_char-not_padding : (n : ℕ) → n < 64 → (to_char n == b'=') ≡ false
unfolding to_char
to_char-not_padding n h = ground arith

-- The groups of six bits of some bytes.
groups : List ℕ → List ℕ
groups (a ∷ b ∷ c ∷ bs) =
    (a / 4) ∷ (a % 4 * 16 + b / 16) ∷ (b % 16 * 4 + c / 64) ∷ (c % 64) ∷ groups bs
groups (a ∷ b ∷ []) = (a / 4) ∷ (a % 4 * 16 + b / 16) ∷ (b % 16 * 4) ∷ []
groups (a ∷ []) = (a / 4) ∷ (a % 4 * 16) ∷ []
groups [] = []

pack-groups : (bs : List ℕ) → All IsByte bs → pack (groups bs) ≡ bs
unfolding pack groups
pack-groups [] h = refl
pack-groups (a ∷ []) h = ground arith
pack-groups (a ∷ b ∷ []) h = ground arith
pack-groups (a ∷ b ∷ c ∷ bs) (ha, (hb, (hc, h))) = ground (arith, pack-groups bs h)

groups-small : (bs : List ℕ) → All IsByte bs → All (λ n. n < 64) (groups bs)
unfolding groups
groups-small [] h = tt
groups-small (a ∷ []) h = omega arith
groups-small (a ∷ b ∷ []) h = omega arith
groups-small (a ∷ b ∷ c ∷ bs) (ha, (hb, (hc, h))) =
    (omega arith, (omega arith, (omega arith, (omega arith, groups-small bs h))))

sextets-map : (ns : List ℕ) → All (λ n. n < 64) ns → sextets (map to_char ns) ≡ some ns
unfolding sextets
sextets-map [] h = refl
sextets-map (n ∷ ns) (hn, h) = ground (arith, sextet-to_char n hn, sextets-map ns h)

strip_space-cons :
    (c : ℕ) (s : Text) → is_ascii_space c ≡ false → strip_space (c ∷ s) ≡ c ∷ strip_space s
unfolding strip_space
strip_space-cons c s h = rw h

strip_space-btoa : (bs : List ℕ) → All IsByte bs → strip_space (btoa bs) ≡ btoa bs
unfolding btoa
strip_space-btoa [] h = unfold strip_space in refl
strip_space-btoa (a ∷ []) (ha, h) =
    rw
      (
        strip_space-cons _ _ (to_char-not_space (a / 4) (omega arith)),
        strip_space-cons _ _ (to_char-not_space (a % 4 * 16) (omega arith)),
      )
      (unfold strip_space in refl)
strip_space-btoa (a ∷ b ∷ []) (ha, (hb, h)) =
    rw
      (
        strip_space-cons _ _ (to_char-not_space (a / 4) (omega arith)),
        strip_space-cons _ _ (to_char-not_space (a % 4 * 16 + b / 16) (omega arith)),
        strip_space-cons _ _ (to_char-not_space (b % 16 * 4) (omega arith)),
      )
      (unfold strip_space in refl)
strip_space-btoa (a ∷ b ∷ c ∷ bs) (ha, (hb, (hc, h))) = rw (
  strip_space-cons _ _ (to_char-not_space (a / 4) (omega arith)),
  strip_space-cons _ _ (to_char-not_space (a % 4 * 16 + b / 16) (omega arith)),
  strip_space-cons _ _ (to_char-not_space (b % 16 * 4 + c / 64) (omega arith)),
  strip_space-cons _ _ (to_char-not_space (c % 64) (omega arith)),
  strip_space-btoa bs h,
)

length-btoa : (bs : List ℕ) → length (btoa bs) % 4 ≡ 0
unfolding btoa
length-btoa [] = refl
length-btoa (a ∷ []) = refl
length-btoa (a ∷ b ∷ []) = refl
length-btoa (a ∷ b ∷ c ∷ bs) = omega (arith, length-btoa bs)

drop_padding_four :
    (x y c d : ℕ) (s : Text)
    → 2 ≤ length s
    → drop_padding (x ∷ y ∷ c ∷ d ∷ s) ≡ x ∷ y ∷ c ∷ d ∷ drop_padding s
unfolding drop_padding
drop_padding_four x y c d [] h = elim h [ ]
drop_padding_four x y c d (e ∷ []) h = absurd (omega arith)
drop_padding_four x y c d (e ∷ f ∷ s) h = refl

le-length-btoa : (b : ℕ) (bs : List ℕ) → 2 ≤ length (btoa (b ∷ bs))
unfolding btoa
le-length-btoa b [] = omega arith
le-length-btoa b (c ∷ []) = omega arith
le-length-btoa b (c ∷ d ∷ bs) = omega arith

drop_padding_one :
    (x y c : ℕ) → (c == b'=') ≡ false → drop_padding (x ∷ y ∷ c ∷ b'=' ∷ []) ≡ x ∷ y ∷ c ∷ []
unfolding drop_padding
drop_padding_one x y c h = rw h

drop_padding_none :
    (x y c d : ℕ) → (d == b'=') ≡ false → drop_padding (x ∷ y ∷ c ∷ d ∷ []) ≡ x ∷ y ∷ c ∷ d ∷ []
unfolding drop_padding
drop_padding_none x y c d h = rw h

drop_padding-btoa : (bs : List ℕ) → All IsByte bs → drop_padding (btoa bs) ≡ map to_char (groups bs)
unfolding groups btoa
drop_padding-btoa [] h = unfold drop_padding in refl
drop_padding-btoa (a ∷ []) h = unfold drop_padding in refl
drop_padding-btoa (a ∷ b ∷ []) (ha, (hb, h)) =
    drop_padding_one _ _ _ (to_char-not_padding (b % 16 * 4) (omega arith))
drop_padding-btoa (a ∷ b ∷ c ∷ []) (ha, (hb, (hc, h))) =
    drop_padding_none _ _ _ _ (to_char-not_padding (c % 64) (omega arith))
drop_padding-btoa (a ∷ b ∷ c ∷ d ∷ bs) (ha, (hb, (hc, h))) =
    rw (
      drop_padding_four _ _ _ _ (btoa (d ∷ bs)) (le-length-btoa d bs),
      drop_padding-btoa (d ∷ bs) h,
    )

groups-length : (bs : List ℕ) → length (map to_char (groups bs)) % 4 ≢ 1
unfolding groups
groups-length [] = omega arith
groups-length (a ∷ []) = omega arith
groups-length (a ∷ b ∷ []) = omega arith
groups-length (a ∷ b ∷ c ∷ bs) = omega (arith, groups-length bs)

decode_unpadded-groups :
    (bs : List ℕ) → All IsByte bs → decode_unpadded (map to_char (groups bs)) ≡ some bs
unfolding decode_unpadded
decode_unpadded-groups bs h =
    ground (arith, groups-length bs, sextets-map (groups bs) (groups-small bs h), pack-groups bs h)

unpadded-btoa : (bs : List ℕ) → All IsByte bs → unpadded (btoa bs) ≡ map to_char (groups bs)
unfolding unpadded
unpadded-btoa bs h = ground (arith, length-btoa bs, drop_padding-btoa bs h)

-- Decoding the base64 encoding of any bytes gives the bytes back.
pub atob-btoa : (bs : List ℕ) → All IsByte bs → atob (btoa bs) ≡ some bs
atob-btoa bs h =
    atob_lem (btoa bs)
    ∙ ap (λ t. decode_unpadded (unpadded t)) (strip_space-btoa bs h)
    ∙ ap decode_unpadded (unpadded-btoa bs h)
    ∙ decode_unpadded-groups bs h
  where
    atob_lem : (s : Text) → atob s ≡ decode_unpadded (unpadded (strip_space s))
    atob_lem s = unfold atob in refl
