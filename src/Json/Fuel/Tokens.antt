-- ===== src/Json/Fuel/Tokens.antt =====
-- What the tokens of JSON take of a text.
use data_plane_gateway.Prelude.{
  ℕ, zero, suc, ◌+◌, ◌*◌, ◌<◌, ◌≤◌, ◌≡◌, subst, inl, inr, Bool, true, false, Bool-cases, Option,
  none, some, Option-cases, [], ◌∷◌, ◌++◌, length, arith, ◌==◌, ltb, if◌then◌else◌,
}
use data_plane_gateway.Text.{Text}
use data_plane_gateway.Json.{Json, str, num}
use data_plane_gateway.Json.Parse.{read_literal, string_value, number_value, read_key}
use data_plane_gateway.Json.Stringify.{quote, backslash}
use data_plane_gateway.Json.Scan.{
  is_space, skip_space, expect, expect_all, Number, start, number_step, may_end, read_number,
  Quoted, plain, escaped, hex, hex_value, escaped_unit, read_string, ◌>>=◌,
}

pub length-skip_space : (s : Text) → length (skip_space s) ≤ length s
unfolding skip_space
length-skip_space [] = omega arith
length-skip_space (c ∷ s) = elim (Bool-cases (is_space c)) [
  | inl h ↦ rw (h, skip_space) (omega (arith, length-skip_space s))
  | inr h ↦ rw (h, skip_space) (omega arith)
]

pub length-expect : (c : ℕ) (s r : Text) → expect c s ≡ some r → length r < length s
unfolding expect
length-expect c [] r h = ground arith
length-expect c (d ∷ s) r h = ground arith

-- A reading that leaves less than `n` code units, if it succeeds.
abbrev pub Leaves {ℓ} : {A : Type ℓ} → ℕ → Option (A × Text) → Type 0
Leaves n none = Unit
Leaves n (some (a, r)) = length r < n

abbrev Shorter : ℕ → Option Text → Type 0
Shorter n none = Unit
Shorter n (some r) = length r < n

pub left_behind {ℓ} :
    {A : Type ℓ} {n : ℕ} {o : Option (A × Text)} {a : A} {r : Text}
    → Leaves n o
    → o ≡ some (a, r)
    → length r < n
left_behind {n} h k = subst (Leaves n) k h

Leaves-suc {ℓ} : {A : Type ℓ} (n : ℕ) (o : Option (A × Text)) → Leaves n o → Leaves (suc n) o
Leaves-suc n none k = tt
Leaves-suc n (some (a, r)) k = omega arith

pub Leaves-if {ℓ} :
    {A : Type ℓ} (n : ℕ) (b : Bool) (o p : Option (A × Text))
    → Leaves n o
    → Leaves n p
    → Leaves n (if b then o else p)
Leaves-if n true o p h k = h
Leaves-if n false o p h k = k

Leaves-bind {ℓ κ} :
    {A : Type ℓ} {B : Type κ} (n : ℕ) (o : Option A) (f : A → Option (B × Text))
    → ((a : A) → Leaves n (f a))
    → Leaves n (o >>= f)
Leaves-bind n none f h = tt
Leaves-bind n (some a) f h = h a

length-read_number : (st : Number) (out s : Text) → Leaves (suc (length s)) (read_number st out s)
unfolding read_number
length-read_number st out [] = Leaves-if 1 (may_end st) (some (out, [])) none (omega arith) tt
length-read_number st out (c ∷ s) = elim (Option-cases (number_step st c)) [
  | inr (st', h) ↦
      rw (h, read_number) (Leaves-suc (suc (length s)) _ (length-read_number st' (out ++ c ∷ []) s))
  | inl h ↦
      rw (h, read_number)
        (Leaves-if (suc (suc (length s))) (may_end st) (some (out, c ∷ s)) none (omega arith) tt)
]

pub length-read_number_start : (s : Text) → Leaves (length s) (read_number start [] s)
unfolding read_number number_step
length-read_number_start [] = tt
length-read_number_start (c ∷ s) = elim (Option-cases (number_step start c)) [
  | inr (st, h) ↦ rw (h, read_number) (length-read_number st (c ∷ []) s)
  | inl h ↦ rw (h, read_number) tt
]

pub length-read_string : (st : Quoted) (out s : Text) → Leaves (length s) (read_string st out s)
unfolding read_string
length-read_string plain out [] = tt
length-read_string escaped out [] = tt
length-read_string (hex zero n) out [] = tt
length-read_string (hex (suc k) n) out [] = tt
length-read_string plain out (c ∷ s) = Leaves-if _ (c == quote) (some (out, s)) _ (omega arith) (
    Leaves-if _ (c == backslash) _ _ (Leaves-suc (length s) _ (length-read_string escaped out s)) (
      Leaves-if _ (ltb c 32) none _ tt
        (Leaves-suc (length s) _ (length-read_string plain (out ++ c ∷ []) s))))
length-read_string escaped out (c ∷ s) =
    Leaves-if _ (c == b'u') _ _ (Leaves-suc (length s) _ (length-read_string (hex 3 0) out s)) (
      Leaves-bind _ (escaped_unit c) _
        (λ d. Leaves-suc (length s) _ (length-read_string plain (out ++ d ∷ []) s)))
length-read_string (hex zero n) out (c ∷ s) =
    Leaves-bind _ (hex_value c) _
      (λ d. Leaves-suc (length s) _ (length-read_string plain (out ++ (n * 16 + d) ∷ []) s))
length-read_string (hex (suc k) n) out (c ∷ s) =
    Leaves-bind _ (hex_value c) _
      (λ d. Leaves-suc (length s) _ (length-read_string (hex k (n * 16 + d)) out s))

length-expect_all : (w s : Text) (n : ℕ) → length s < n → Shorter n (expect_all w s)
unfolding expect_all
length-expect_all [] s n h = h
length-expect_all (c ∷ w) s n h = elim (Option-cases (expect c s)) [
  | inl k ↦ rw k tt
  | inr (r, k) ↦ rw k (length-expect_all w r n (omega (arith, length-expect c s r k)))
]

-- A literal, a string or a number, behind its first code unit `c`.
pub Leaves-literal : (w : Text) (v : Json) (s : Text) → Leaves (suc (length s)) (read_literal w v s)
unfolding read_literal
Leaves-literal w v s =
    literal (expect_all w s) (length-expect_all w s (suc (length s)) (omega arith))
  where
    literal :
        (o : Option Text)
        → Shorter (suc (length s)) o
        → Leaves (suc (length s)) (o >>= λ r. some (v, r))
    literal none h = tt
    literal (some r) h = h

Leaves-map {ℓ κ} :
    {A : Type ℓ} {B : Type κ} (n : ℕ) (o : Option (A × Text)) (f : A → B)
    → Leaves n o
    → Leaves n (o >>= λ (a, r). some (f a, r))
Leaves-map n none f h = tt
Leaves-map n (some (a, r)) f h = h

pub Leaves-string : (s : Text) → Leaves (suc (length s)) (string_value s)
unfolding string_value
Leaves-string s =
    Leaves-suc (length s) _ (Leaves-map (length s) _ str (length-read_string plain [] s))

pub Leaves-number : (s : Text) → Leaves (length s) (number_value s)
unfolding number_value
Leaves-number s = Leaves-map (length s) _ num (length-read_number_start s)

pub length-read_key : (s : Text) → Leaves (length s) (read_key s)
unfolding read_key
length-read_key s = elim (Option-cases (expect quote (skip_space s))) [
  | inl h ↦ rw h tt
  | inr (r, h) ↦ elim (Option-cases (read_string plain [] r)) [
    | inl k ↦ rw (h, k) tt
    | inr ((t, q), k) ↦ elim (Option-cases (expect b':' (skip_space q))) [
      | inl l ↦ rw (h, k, l) tt
      | inr (w, l) ↦
          rw (h, k, l)
            (omega (
              arith,
              length-skip_space s,
              length-expect quote (skip_space s) r h,
              left_behind (length-read_string plain [] r) k,
              length-skip_space q,
              length-expect b':' (skip_space q) w l,
            ))
    ]
  ]
]
