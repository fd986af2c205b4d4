-- ===== src/Json/RoundTrip/Numbers.antt =====
-- Literals of numbers: where a scan of one ends.
use data_plane_gateway.Prelude.{
  ℕ, ◌≤◌, ◌≡◌, ◌≢◌, refl, true, ◌⊎◌, inl, inr, none, some, [], ◌∷◌, ◌++◌, All, arith, Option-cases,
}
use data_plane_gateway.Text.{Text}
use data_plane_gateway.Json.Scan.{
  Number, start, signed, zeroed, whole, point, fraction, exponent, exponent_signed, power, may_end,
  number_step, read_number,
}

-- What stands behind a value in a printed text: nothing, or a code unit that is in no number.
abbrev pub IsStop : Text → Type 0
IsStop [] = Unit
IsStop (c ∷ s) = (c ≡ b',') ⊎ (c ≡ b']') ⊎ (c ≡ b'}')

-- A literal that is a number as a whole.
abbrev pub IsNumber : Text → Type 0
IsNumber n = read_number start [] n ≡ some (n, [])

number_step-stop :
    (st : Number) (c : ℕ) (s : Text) → IsStop (c ∷ s) → may_end st ≡ true → number_step st c ≡ none
unfolding number_step
number_step-stop start c s h m = ground arith
number_step-stop signed c s h m = ground arith
number_step-stop zeroed c s h m = ground arith
number_step-stop whole c s h m = ground arith
number_step-stop point c s h m = ground arith
number_step-stop fraction c s h m = ground arith
number_step-stop exponent c s h m = ground arith
number_step-stop exponent_signed c s h m = ground arith
number_step-stop power c s h m = ground arith

-- A literal is scanned in front of what stops it as at the end of the text.
pub read_number-stop :
    (st : Number) (out n m t : Text)
    → read_number st out n ≡ some (m, [])
    → IsStop t
    → read_number st out (n ++ t) ≡ some (m, t)
unfolding read_number
read_number-stop st out [] m [] e h = e
read_number-stop st out [] m (c ∷ t) e h = ground (arith, number_step-stop st c t h)
read_number-stop st out (c ∷ n) m t e h = elim (Option-cases (number_step st c)) [
  | inl k ↦ absurd (ground arith)
  | inr (st', k) ↦ rw (k, read_number) (read_number-stop st' (out ++ c ∷ []) n m t (ground arith) h)
]

number_step-line : (st : Number) → number_step st 10 ≡ none
unfolding number_step
number_step-line start = refl
number_step-line signed = refl
number_step-line zeroed = refl
number_step-line whole = refl
number_step-line point = refl
number_step-line fraction = refl
number_step-line exponent = refl
number_step-line exponent_signed = refl
number_step-line power = refl

-- No line break stands in a literal.
pub read_number-Lacks :
    (st : Number) (out n m : Text) → read_number st out n ≡ some (m, []) → All (λ d. d ≢ 10) n
unfolding read_number
read_number-Lacks st out [] m e = tt
read_number-Lacks st out (c ∷ n) m e = elim (Option-cases (number_step st c)) [
  | inl k ↦ absurd (ground arith)
  | inr (st', k) ↦ (
    λ i. ground (arith, number_step-line st),
    read_number-Lacks st' (out ++ c ∷ []) n m (ground arith),
  )
]

-- A number begins with a sign or a digit.
pub IsNumber-head : (c : ℕ) (n : Text) → IsNumber (c ∷ n) → (c ≡ b'-') ⊎ (b'0' ≤ c) × (c ≤ b'9')
unfolding read_number number_step
IsNumber-head c n h = ground arith

pub IsNumber-nil : IsNumber [] → ⊥
unfolding read_number
IsNumber-nil h = ground arith
