-- ===== src/Json/Fuel/Steps.antt =====
-- The rounds of the parser of JSON, one for each of its functions.
use data_plane_gateway.Prelude.{
  ℕ, zero, suc, ◌+◌, ◌*◌, ◌<◌, ◌≤◌, ◌≡◌, refl, sym, ap, subst, ◌∙◌, inl, inr, Option, none, some,
  Option-cases, length, arith,
}
use data_plane_gateway.Text.{Text}
use data_plane_gateway.Json.{nil, end}
use data_plane_gateway.Json.Scan.{skip_space, expect, ◌>>=◌}
use data_plane_gateway.Json.Parse.{
  read_value, read_bare, read_items, read_elements, read_fields, read_members,
}
use data_plane_gateway.Json.Fuel.Tokens.{length-skip_space, length-expect}

-- A reading of a text of `n` code units. If it succeeds, it takes some of them, and reading again
-- with fuel for three rounds for each of these gives the same; `slack` rounds less are enough.
abbrev pub Reads {ℓ} : {A : Type ℓ} → ℕ → ℕ → Option (A × Text) → (ℕ → Option (A × Text)) → Type ℓ
Reads slack n none again = Unit
Reads slack n (some (a, r)) again =
    (length r < n) × ((g : ℕ) → 3 * n ≤ 3 * length r + g + slack → again g ≡ some (a, r))

pub Reads-so {ℓ} :
    {A : Type ℓ} (slack n : ℕ) {o : Option (A × Text)} {again : ℕ → Option (A × Text)} {a : A}
    {r : Text}
    → Reads slack n o again
    → o ≡ some (a, r)
    → (length r < n) × ((g : ℕ) → 3 * n ≤ 3 * length r + g + slack → again g ≡ some (a, r))
Reads-so slack n {again} h k = subst (λ o. Reads slack n o again) k h

abbrev pub mapped {ℓ κ} :
    {A : Type ℓ} {B : Type κ} → (A → B) → Option (A × Text) → Option (B × Text)
mapped f o = o >>= λ (a, r). some (f a, r)

-- One round around a reading of `m` code units of `n`.
pub round {ℓ κ} :
    {A : Type ℓ} {B : Type κ} (f : A → B) (slack slack' m n : ℕ) (o : Option (A × Text))
    (again : ℕ → Option (A × Text)) (again' : ℕ → Option (B × Text))
    → m ≤ n
    → slack' ≤ 2
    → 3 * m + 1 + slack' ≤ 3 * n + slack
    → ((g : ℕ) → again' (suc g) ≡ mapped f (again g))
    → Reads slack m o again
    → Reads slack' n (mapped f o) again'
round f slack slack' m n none again again' i j k e h = tt
round f slack slack' m n (some (a, r)) again again' i j k e (l, h) = (omega arith, λ g b. more g b)
  where
    more : (g : ℕ) → 3 * n ≤ 3 * length r + g + slack' → again' g ≡ some (f a, r)
    more zero b = absurd (omega arith)
    more (suc g) b = e g ∙ ap (mapped f) (h g (omega arith))

mapped_id {ℓ} : {A : Type ℓ} (o : Option (A × Text)) → mapped (λ a. a) o ≡ o
mapped_id none = refl
mapped_id (some (a, r)) = refl

-- A round that changes nothing of what is read.
plain_round {ℓ} :
    {A : Type ℓ} (slack slack' m n : ℕ) (o : Option (A × Text))
    (again again' : ℕ → Option (A × Text))
    → m ≤ n
    → slack' ≤ 2
    → 3 * m + 1 + slack' ≤ 3 * n + slack
    → ((g : ℕ) → again' (suc g) ≡ again g)
    → Reads slack m o again
    → Reads slack' n o again'
plain_round slack slack' m n o again again' i j k e h =
    subst (λ p. Reads slack' n p again') (mapped_id o)
      (round (λ a. a) slack slack' m n o again again' i j k (λ g. e g ∙ sym (mapped_id (again g)))
        h)

-- What the readers do with a certain amount of fuel, for every text.
abbrev pub Value : ℕ → Type 0
Value f = (s : Text) → Reads 1 (length s) (read_value f s) (λ g. read_value g s)

abbrev pub Bare : ℕ → Type 0
Bare f = (s : Text) → Reads 2 (length s) (read_bare f s) (λ g. read_bare g s)

abbrev pub AllItems : ℕ → Type 0
AllItems f = (s : Text) → Reads 2 (length s) (read_items f s) (λ g. read_items g s)

abbrev pub Elements : ℕ → Type 0
Elements f = (s : Text) → Reads 3 (length s) (read_elements f s) (λ g. read_elements g s)

abbrev pub AllFields : ℕ → Type 0
AllFields f = (s : Text) → Reads 2 (length s) (read_fields f s) (λ g. read_fields g s)

abbrev pub Members : ℕ → Type 0
Members f = (s : Text) → Reads 3 (length s) (read_members f s) (λ g. read_members g s)

value_suc : (f : ℕ) (s : Text) → read_value (suc f) s ≡ read_bare f (skip_space s)
unfolding read_value
value_suc f s = refl

pub Value-step : (f : ℕ) → Bare f → Value (suc f)
Value-step f h s =
    subst (λ o. Reads 1 (length s) o (λ g. read_value g s)) (sym (value_suc f s))
      (plain_round 2 1 (length (skip_space s)) (length s) (read_bare f (skip_space s)) _ _
        (length-skip_space s) (omega arith) (omega (arith, length-skip_space s))
        (λ g. value_suc g s) (h (skip_space s)))

items_none :
    (f : ℕ) (s : Text)
    → expect b']' (skip_space s) ≡ none
    → read_items (suc f) s ≡ read_elements f s
items_none f s h = unfold read_items in rw (h, read_items)

items_some :
    (f : ℕ) (s r : Text)
    → expect b']' (skip_space s) ≡ some r
    → read_items (suc f) s ≡ some (nil, r)
items_some f s r h = unfold read_items in rw (h, read_items)

-- What ends at once is read in one round.
pub ends_at_once {ℓ} :
    {A : Type ℓ} (n : ℕ) (a : A) (r : Text) (again : ℕ → Option (A × Text))
    → length r < n
    → ((g : ℕ) → again (suc g) ≡ some (a, r))
    → Reads 2 n (some (a, r)) again
ends_at_once n a r again h e = (h, λ g b. more g b)
  where
    more : (g : ℕ) → 3 * n ≤ 3 * length r + g + 2 → again g ≡ some (a, r)
    more zero b = absurd (omega arith)
    more (suc g) b = e g

pub AllItems-step : (f : ℕ) → Elements f → AllItems (suc f)
AllItems-step f h s = elim (Option-cases (expect b']' (skip_space s))) [
  | inl k ↦
      subst (λ o. Reads 2 (length s) o (λ g. read_items g s)) (sym (items_none f s k))
        (plain_round 3 2 (length s) (length s) (read_elements f s) _ _ (omega arith) (omega arith)
          (omega arith) (λ g. items_none g s k) (h s))
  | inr (r, k) ↦
      subst (λ o. Reads 2 (length s) o (λ g. read_items g s)) (sym (items_some f s r k))
        (ends_at_once (length s) nil r (λ g. read_items g s)
          (omega (arith, length-expect b']' (skip_space s) r k, length-skip_space s))
          (λ g. items_some g s r k))
]

fields_none :
    (f : ℕ) (s : Text)
    → expect b'}' (skip_space s) ≡ none
    → read_fields (suc f) s ≡ read_members f s
fields_none f s h = unfold read_fields in rw (h, read_fields)

fields_some :
    (f : ℕ) (s r : Text)
    → expect b'}' (skip_space s) ≡ some r
    → read_fields (suc f) s ≡ some (end, r)
fields_some f s r h = unfold read_fields in rw (h, read_fields)

pub AllFields-step : (f : ℕ) → Members f → AllFields (suc f)
AllFields-step f h s = elim (Option-cases (expect b'}' (skip_space s))) [
  | inl k ↦
      subst (λ o. Reads 2 (length s) o (λ g. read_fields g s)) (sym (fields_none f s k))
        (plain_round 3 2 (length s) (length s) (read_members f s) _ _ (omega arith) (omega arith)
          (omega arith) (λ g. fields_none g s k) (h s))
  | inr (r, k) ↦
      subst (λ o. Reads 2 (length s) o (λ g. read_fields g s)) (sym (fields_some f s r k))
        (ends_at_once (length s) end r (λ g. read_fields g s)
          (omega (arith, length-expect b'}' (skip_space s) r k, length-skip_space s))
          (λ g. fields_some g s r k))
]
