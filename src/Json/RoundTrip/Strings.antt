-- ===== src/Json/RoundTrip/Strings.antt =====
-- Strings of JSON, as they are quoted and read back.
use data_plane_gateway.Prelude.{
  ℕ, ◌+◌, ◌*◌, ◌/◌, ◌%◌, ◌<◌, ◌≤◌, ◌≡◌, ◌≢◌, refl, ◌∙◌, ◌&&◌, some, [], ◌∷◌, ◌++◌, append-nil,
  append_assoc, All, All-append, arith, Bool-cases, ◌⊎◌, inl, inr, ltb, ◌==◌,
}
use data_plane_gateway.Text.{Text}
use data_plane_gateway.Json.Stringify.{
  quote, backslash, hex_digit, unicode_escape, quote_unit, quote_units, is_high, is_low,
}
use data_plane_gateway.Json.Scan.{plain, hex_value, escaped_unit, read_string}

-- The code units of a string.
abbrev pub IsUnit16 : ℕ → Type 0
IsUnit16 c = c < 0x10000

hex_value-hex_digit : (n : ℕ) → n < 16 → hex_value (hex_digit n) ≡ some n
unfolding hex_value hex_digit
hex_value-hex_digit n h = ground arith

read_unicode :
    (c : ℕ) (out t : Text)
    → IsUnit16 c
    → read_string plain out (unicode_escape c ++ t) ≡ read_string plain (out ++ c ∷ []) t
unfolding unicode_escape
read_unicode c out t h =
    unfold read_string in
    rw (
      hex_value-hex_digit (c / 4096 % 16) (omega arith),
      hex_value-hex_digit (c / 256 % 16) (omega arith),
      hex_value-hex_digit (c / 16 % 16) (omega arith),
      hex_value-hex_digit (c % 16) (omega arith),
      digits,
    )
  where
    digits : (((0 * 16 + c / 4096 % 16) * 16 + c / 256 % 16) * 16 + c / 16 % 16) * 16 + c % 16 ≡ c
    digits = omega arith

-- A code unit that needs no escape.
read_plain :
    (c : ℕ) (out t : Text)
    → 32 ≤ c
    → c ≢ quote
    → c ≢ backslash
    → read_string plain out (c ∷ t) ≡ read_string plain (out ++ c ∷ []) t
unfolding read_string
read_plain c out t h p q = ground arith

-- A letter behind a backslash.
read_escaped :
    (k c : ℕ) (out t : Text)
    → escaped_unit k ≡ some c
    → k ≢ b'u'
    → read_string plain out (backslash ∷ k ∷ t) ≡ read_string plain (out ++ c ∷ []) t
read_escaped k c out t h n = unfold read_string in ground (arith, h)

-- How a code unit is printed: as itself, by its number, or by a letter behind a backslash.
abbrev Quoting : ℕ → Type 0
Quoting c =
    (quote_unit c ≡ c ∷ []) × (32 ≤ c) × (c ≢ quote) × (c ≢ backslash)
    ⊎ (quote_unit c ≡ unicode_escape c)
    ⊎ (e : ℕ) × (quote_unit c ≡ backslash ∷ e ∷ []) × (escaped_unit e ≡ some c) × (e ≢ b'u')

escaped_cases :
    (c k : ℕ) → escaped_unit k ≡ some c → k ≢ b'u' → quote_unit c ≡ backslash ∷ k ∷ [] → Quoting c
escaped_cases c k h n q = inr (inr (k, q, h, n))

Quoting-cases : (c : ℕ) → Quoting c
unfolding quote_unit escaped_unit
Quoting-cases c = elim (Bool-cases (c == quote)) [
  | inl e ↦ escaped_cases c quote (ground arith) (λ p. ground arith) (rw (e))
  | inr h0 ↦ elim (Bool-cases (c == backslash)) [
    | inl e ↦ escaped_cases c backslash (ground arith) (λ p. ground arith) (rw (h0, e))
    | inr h1 ↦ elim (Bool-cases (c == 8)) [
      | inl e ↦ escaped_cases c b'b' (ground arith) (λ p. ground arith) (rw (h0, h1, e))
      | inr h2 ↦ elim (Bool-cases (c == 9)) [
        | inl e ↦ escaped_cases c b't' (ground arith) (λ p. ground arith) (rw (h0, h1, h2, e))
        | inr h3 ↦ elim (Bool-cases (c == 10)) [
          | inl e ↦ escaped_cases c b'n' (ground arith) (λ p. ground arith) (rw (h0, h1, h2, h3, e))
          | inr h4 ↦ elim (Bool-cases (c == 12)) [
            | inl e ↦
                escaped_cases c b'f' (ground arith) (λ p. ground arith) (rw (h0, h1, h2, h3, h4, e))
            | inr h5 ↦ elim (Bool-cases (c == 13)) [
              | inl e ↦
                  escaped_cases c b'r' (ground arith) (λ p. ground arith)
                    (rw (h0, h1, h2, h3, h4, h5, e))
              | inr h6 ↦ elim (Bool-cases (ltb c 32)) [
                | inl e ↦ inr (inl (rw (h0, h1, h2, h3, h4, h5, h6, e)))
                | inr g0 ↦ elim (Bool-cases (is_high c)) [
                  | inl e ↦ inr (inl (rw (h0, h1, h2, h3, h4, h5, h6, g0, e)))
                  | inr g1 ↦ elim (Bool-cases (is_low c)) [
                    | inl e ↦ inr (inl (rw (h0, h1, h2, h3, h4, h5, h6, g0, g1, e)))
                    | inr g2 ↦ inl (
                      rw (h0, h1, h2, h3, h4, h5, h6, g0, g1, g2),
                      ground arith,
                      (λ p. ground arith),
                      (λ p. ground arith),
                    )
                  ]
                ]
              ]
            ]
          ]
        ]
      ]
    ]
  ]
]

read_quote_unit :
    (c : ℕ) (out t : Text)
    → IsUnit16 c
    → read_string plain out (quote_unit c ++ t) ≡ read_string plain (out ++ c ∷ []) t
read_quote_unit c out t h = elim (Quoting-cases c) [
  | inl (e, b, p, q) ↦ rw e (read_plain c out t b p q)
  | inr (inl e) ↦ rw e (read_unicode c out t h)
  | inr (inr (k, e, d, n)) ↦ rw e (read_escaped k c out t d n)
]

append_two : (out : Text) (c : ℕ) (s : Text) → (out ++ c ∷ []) ++ s ≡ out ++ c ∷ s
append_two out c s = append_assoc out (c ∷ []) s

read_quoted :
    (s out t : Text)
    → All IsUnit16 s
    → read_string plain out (quote_units s ++ quote ∷ t) ≡ some (out ++ s, t)
unfolding quote_units
read_quoted [] out t h = unfold read_string in rw append-nil
read_quoted (c ∷ []) out t (hc, _) =
    read_quote_unit c out (quote ∷ t) hc ∙ unfold read_string in refl
read_quoted (c ∷ d ∷ s) out t (hc, (hd, h)) = elim (Bool-cases (is_high c && is_low d)) [
  | inl p ↦
      rw (p, quote_units)
        (read_plain c out _ (ground arith) (λ e. ground arith) (λ e. ground arith)
          ∙ read_plain d (out ++ c ∷ []) _ (ground arith) (λ e. ground arith) (λ e. ground arith)
          ∙ read_quoted s ((out ++ c ∷ []) ++ d ∷ []) t h
          ∙ rw (append_two, append_two))
  | inr p ↦
      rw (p, quote_units, append_assoc (quote_unit c))
        (read_quote_unit c out _ hc ∙ read_quoted (d ∷ s) (out ++ c ∷ []) t (hd, h) ∙ rw append_two)
]

-- A printed string is read back, and what is behind it is left.
pub read_stringified :
    (s t : Text) → All IsUnit16 s → read_string plain [] (quote_units s ++ quote ∷ t) ≡ some (s, t)
read_stringified s t h = read_quoted s [] t h

-- No line break stands in a printed string.
quote_unit-Lacks : (c : ℕ) → All (λ d. d ≢ 10) (quote_unit c)
quote_unit-Lacks c = elim (Quoting-cases c) [
  | inl (e, b, p, q) ↦ rw e (λ k. ground arith, tt)
  | inr (inl e) ↦ rw e (unicode_escape-Lacks c)
  | inr (inr (k, e, d, n)) ↦ rw e (λ i. ground arith, (λ i. escaped_unit-Lacks k c d i, tt))
]
  where
    unicode_escape-Lacks : (c : ℕ) → All (λ d. d ≢ 10) (unicode_escape c)
    unicode_escape-Lacks c = unfold unicode_escape hex_digit in ground arith

    escaped_unit-Lacks : (k c : ℕ) → escaped_unit k ≡ some c → k ≢ 10
    escaped_unit-Lacks k c d i = unfold escaped_unit in ground arith

pub quote_units-Lacks : (s : Text) → All (λ d. d ≢ 10) (quote_units s)
unfolding quote_units
quote_units-Lacks [] = tt
quote_units-Lacks (c ∷ []) = quote_unit-Lacks c
quote_units-Lacks (c ∷ d ∷ s) = elim (Bool-cases (is_high c && is_low d)) [
  | inl p ↦ rw (p, quote_units) ((λ e. ground arith), ((λ e. ground arith), quote_units-Lacks s))
  | inr p ↦
      rw (p, quote_units)
        (All-append (λ d. d ≢ 10) (quote_unit c) (quote_units (d ∷ s)) (quote_unit-Lacks c)
          (quote_units-Lacks (d ∷ s)))
]
