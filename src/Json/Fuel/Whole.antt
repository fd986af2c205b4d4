-- ===== src/Json/Fuel/Whole.antt =====
-- The fuel of `JSON.parse` as a whole.
use data_plane_gateway.Prelude.{
  ℕ, zero, suc, ◌+◌, ◌*◌, ◌≤◌, ◌≡◌, refl, sym, ap, subst, ◌∙◌, ◌↔◌, ◌⊎◌, inl, inr, true, false,
  Bool-cases, Option, none, some, Option-cases, [], ◌∷◌, length, arith, ◌==◌, if◌then◌else◌,
}
use mathlib.Core.Option.{get_or}
use data_plane_gateway.Text.{Text, codes}
use data_plane_gateway.Json.{Json, null, bool, arr, obj, Items, Fields}
use data_plane_gateway.Json.Stringify.{quote}
use data_plane_gateway.Json.Scan.{skip_space}
use data_plane_gateway.Json.Parse.{
  read_literal, number_value, string_value, read_value, read_bare, read_items, read_fields, parse,
}
use data_plane_gateway.Json.Fuel.Tokens.{
  Leaves, Leaves-if, Leaves-literal, Leaves-string, Leaves-number,
}
use data_plane_gateway.Json.Fuel.Steps.{
  Reads, Reads-so, mapped, round, ends_at_once, Value, Bare, AllItems, Elements, AllFields, Members,
  Value-step, AllItems-step, AllFields-step,
}
use data_plane_gateway.Json.Fuel.Loops.{Elements-step, Members-step}

-- A value by its first code unit, given the array and the object that it may be.
abbrev branch : ℕ → Text → Option (Items × Text) → Option (Fields × Text) → Option (Json × Text)
branch c s i o =
    if c == b'['
    then mapped arr i
    else if c == b'{'
    then mapped obj o
    else if c == quote
    then string_value s
    else if c == b'n'
    then read_literal (codes "ull") null s
    else if c == b't'
    then read_literal (codes "rue") (bool true) s
    else if c == b'f'
    then read_literal (codes "alse") (bool false) s
    else number_value (c ∷ s)

bare_suc :
    (f c : ℕ) (s : Text) → read_bare (suc f) (c ∷ s) ≡ branch c s (read_items f s) (read_fields f s)
unfolding read_bare
bare_suc f c s = refl

branch_array :
    (c : ℕ) (s : Text) (i : Option (Items × Text)) (o : Option (Fields × Text))
    → (c == b'[') ≡ true
    → branch c s i o ≡ mapped arr i
branch_array c s i o h = rw h refl

branch_object :
    (c : ℕ) (s : Text) (i : Option (Items × Text)) (o : Option (Fields × Text))
    → (c == b'[') ≡ false
    → (c == b'{') ≡ true
    → branch c s i o ≡ mapped obj o
branch_object c s i o h k = rw (h, k) refl

branch_token :
    (c : ℕ) (s : Text) (i : Option (Items × Text)) (o : Option (Fields × Text))
    → (c == b'[') ≡ false
    → (c == b'{') ≡ false
    → branch c s i o ≡ branch c s none none
branch_token c s i o h k = rw (h, k) refl

Leaves-token : (c : ℕ) (s : Text) → Leaves (suc (length s)) (branch c s none none)
Leaves-token c s = Leaves-if _ (c == b'[') _ _ tt (
    Leaves-if _ (c == b'{') _ _ tt (
      Leaves-if _ (c == quote) _ _ (Leaves-string s) (
        Leaves-if _ (c == b'n') _ _ (Leaves-literal (codes "ull") null s) (
          Leaves-if _ (c == b't') _ _ (Leaves-literal (codes "rue") (bool true) s) (
            Leaves-if _ (c == b'f') _ _ (Leaves-literal (codes "alse") (bool false) s)
              (Leaves-number (c ∷ s)))))))

token_round :
    (n : ℕ) (o : Option (Json × Text)) (again : ℕ → Option (Json × Text))
    → Leaves n o
    → ((g : ℕ) → again (suc g) ≡ o)
    → Reads 2 n o again
token_round n none again h e = tt
token_round n (some (v, r)) again h e = ends_at_once n v r again h e

Bare-step : (f : ℕ) → AllItems f → AllFields f → Bare (suc f)
Bare-step f hi ho [] = unfold read_bare in tt
Bare-step f hi ho (c ∷ s) =
    subst (λ o. Reads 2 (suc (length s)) o (λ g. read_bare g (c ∷ s))) (sym (bare_suc f c s))
      by_unit
  where
    by_unit :
        Reads 2
          (suc (length s))
          (branch c s (read_items f s) (read_fields f s))
          (λ g. read_bare g (c ∷ s))
    by_unit = elim (Bool-cases (c == b'[')) [
      | inl h ↦
          subst (λ o. Reads 2 (suc (length s)) o (λ g. read_bare g (c ∷ s)))
            (sym (branch_array c s (read_items f s) (read_fields f s) h))
            (round arr 2 2 (length s) (suc (length s)) (read_items f s) (λ g. read_items g s) _
              (omega arith) (omega arith) (omega arith)
              (λ g. bare_suc g c s ∙ branch_array c s (read_items g s) (read_fields g s) h) (hi s))
      | inr h ↦ elim (Bool-cases (c == b'{')) [
        | inl k ↦
            subst (λ o. Reads 2 (suc (length s)) o (λ g. read_bare g (c ∷ s)))
              (sym (branch_object c s (read_items f s) (read_fields f s) h k))
              (round obj 2 2 (length s) (suc (length s)) (read_fields f s) (λ g. read_fields g s) _
                (omega arith) (omega arith) (omega arith)
                (λ g. bare_suc g c s ∙ branch_object c s (read_items g s) (read_fields g s) h k)
                (ho s))
        | inr k ↦
            subst (λ o. Reads 2 (suc (length s)) o (λ g. read_bare g (c ∷ s)))
              (sym (branch_token c s (read_items f s) (read_fields f s) h k))
              (token_round (suc (length s)) (branch c s none none) (λ g. read_bare g (c ∷ s))
                (Leaves-token c s)
                (λ g. bare_suc g c s ∙ branch_token c s (read_items g s) (read_fields g s) h k))
      ]
    ]

abbrev AllRead : ℕ → Type 0
AllRead f = Value f × Bare f × AllItems f × Elements f × AllFields f × Members f

all_read : (f : ℕ) → AllRead f
all_read zero =
    unfold read_value in ((λ s. tt), (λ s. tt), (λ s. tt), (λ s. tt), (λ s. tt), (λ s. tt))
all_read (suc f) =
    let (v, b, i, e, o, m) = all_read f in
    (
      Value-step f b,
      Bare-step f i o,
      AllItems-step f e,
      Elements-step f v e,
      AllFields-step f m,
      Members-step f v m,
    )

-- What some fuel reads, three rounds for each code unit read.
pub read_value_enough :
    (f : ℕ) (s : Text) (v : Json) (r : Text) (g : ℕ)
    → read_value f s ≡ some (v, r)
    → 3 * length s ≤ g
    → read_value g s ≡ some (v, r)
read_value_enough f s v r g h k = (Reads-so 1 (length s) ((all_read f).0 s) h).1 g (omega arith)

-- A text that some fuel reads as a value, with space at most behind it.
abbrev pub IsReadAs : Text → Json → Type 0
IsReadAs s v = (f : ℕ) × (r : Text) × (read_value f s ≡ some (v, r)) × (skip_space r ≡ [])

parse_whole :
    (s : Text) (v : Json) (r : Text)
    → read_value (length s * 3 + 3) s ≡ some (v, r)
    → skip_space r ≡ []
    → parse s ≡ some v
unfolding parse
parse_whole s v r h k = rw h (at_end (skip_space r) k)
  where
    at_end :
        (q : Text) → q ≡ [] → (elim q as (λ x. Option Json) [ [] ↦ some v | _ ↦ none ]) ≡ some v
    at_end [] e = refl
    at_end (d ∷ q) e = absurd (ground (arith, e))

parse_left :
    (s : Text) (v : Json) (r : Text) (c : ℕ) (t : Text)
    → read_value (length s * 3 + 3) s ≡ some (v, r)
    → skip_space r ≡ c ∷ t
    → parse s ≡ none
unfolding parse
parse_left s v r c t h k = rw h (not_at_end (skip_space r) k)
  where
    not_at_end :
        (q : Text) → q ≡ c ∷ t → (elim q as (λ x. Option Json) [ [] ↦ some v | _ ↦ none ]) ≡ none
    not_at_end [] e = absurd (ground (arith, e))
    not_at_end (d ∷ q) e = refl

parse_fails : (s : Text) → read_value (length s * 3 + 3) s ≡ none → parse s ≡ none
unfolding parse
parse_fails s h = rw h refl

-- `parse` reads what any fuel reads.
pub parse_iff : (s : Text) (v : Json) → (parse s ≡ some v) ↔ IsReadAs s v
parse_iff s v = (there (Option-cases (read_value (length s * 3 + 3) s)), back)
  where
    by_rest :
        (w : Json) (r q : Text)
        → read_value (length s * 3 + 3) s ≡ some (w, r)
        → skip_space r ≡ q
        → parse s ≡ some v
        → IsReadAs s v
    by_rest w r [] k l h = (
      length s * 3 + 3,
      r,
      k ∙ ap (λ u. some (u, r)) (ap (λ o. get_or o w) (sym (parse_whole s w r k l) ∙ h)),
      l,
    )
    by_rest w r (c ∷ t) k l h = absurd (ground (arith, sym (parse_left s w r c t k l) ∙ h))

    there :
        (read_value (length s * 3 + 3) s ≡ none)
          ⊎ ((a : Json × Text) × (read_value (length s * 3 + 3) s ≡ some a))
        → parse s ≡ some v
        → IsReadAs s v
    there (inl k) h = absurd (ground (arith, sym (parse_fails s k) ∙ h))
    there (inr ((w, r), k)) h = by_rest w r (skip_space r) k refl h

    back : IsReadAs s v → parse s ≡ some v
    back (f, r, h, k) =
        parse_whole s v r (read_value_enough f s v r (length s * 3 + 3) h (omega arith)) k
