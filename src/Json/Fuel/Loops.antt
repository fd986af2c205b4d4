-- ===== src/Json/Fuel/Loops.antt =====
-- The rounds of the parser of JSON over the elements of an array and the members of an object.
use data_plane_gateway.Prelude.{
  ℕ, zero, suc, ◌+◌, ◌*◌, ◌<◌, ◌≤◌, ◌≡◌, refl, ap, ◌∙◌, inl, inr, Option, none, some, Option-cases,
  length, arith,
}
use data_plane_gateway.Text.{Text}
use data_plane_gateway.Json.{Json, nil, cons, Fields, end, field}
use data_plane_gateway.Json.Scan.{skip_space, expect, ◌>>=◌}
use data_plane_gateway.Json.Parse.{read_key, put_first, read_value, read_elements, read_members}
use data_plane_gateway.Json.Fuel.Tokens.{
  length-skip_space, length-expect, length-read_key, left_behind,
}
use data_plane_gateway.Json.Fuel.Steps.{Reads, Reads-so, mapped, Value, Elements, Members}

-- Behind a value: the end, or a comma and more.
module _ {B : Type 0} (close : ℕ) (single : B) (join : B → B)
    (loop : ℕ → Text → Option (B × Text)) where
  unfoldable next : ℕ → Text → Option (B × Text)
  next f r = elim (expect close (skip_space r)) [
    | some q ↦ some (single, q)
    | none ↦ expect b',' (skip_space r) >>= λ q. mapped join (loop f q)
  ]

  next_close :
      (f : ℕ) (r q : Text) → expect close (skip_space r) ≡ some q → next f r ≡ some (single, q)
  unfolding next
  next_close f r q h = rw (h, next)

  next_comma :
      (f : ℕ) (r : Text)
      → expect close (skip_space r) ≡ none
      → next f r ≡ (expect b',' (skip_space r) >>= λ q. mapped join (loop f q))
  unfolding next
  next_comma f r h = rw (h, next)

  next-Reads :
      (f : ℕ)
      → ((q : Text) → Reads 3 (length q) (loop f q) (λ g. loop g q))
      → (r : Text) → Reads 1 (length r) (next f r) (λ g. next g r)
  next-Reads f h r = elim (Option-cases (expect close (skip_space r))) [
    | inr (q, k) ↦ rw (next_close f r q k) (
      omega (arith, length-expect close (skip_space r) q k, length-skip_space r),
      λ g b. next_close g r q k,
    )
    | inl k ↦ elim (Option-cases (expect b',' (skip_space r))) [
      | inl i ↦ rw (next_comma f r k, i) tt
      | inr (q, i) ↦ elim (Option-cases (loop f q)) [
        | inl j ↦ rw (next_comma f r k, i, j) tt
        | inr ((x, w), j) ↦
            let (l, a) = Reads-so 3 (length q) (h q) j in
            rw (next_comma f r k, i, j)
              (
                omega (arith, l, length-expect b',' (skip_space r) q i, length-skip_space r),
                λ g b.
                    next_comma g r k
                    ∙ rw i (
                        ap (mapped join) (
                          a g (
                            omega (
                              arith,
                              length-expect b',' (skip_space r) q i,
                              length-skip_space r,
                              b,
                            )))),
              )
      ]
    ]
  ]

loop_round :
    {A B : Type 0} (n : ℕ) (value : ℕ → Option (A × Text)) (f : ℕ)
    (cont : A → ℕ → Text → Option (B × Text)) (again : ℕ → Option (B × Text))
    → ((g : ℕ) → again (suc g) ≡ (value g >>= λ (v, r). cont v g r))
    → Reads 1 n (value f) value
    → ((v : A) (r : Text) → Reads 1 (length r) (cont v f r) (λ g. cont v g r))
    → Reads 3 n (value f >>= λ (v, r). cont v f r) again
loop_round {A = A} {B = B} n value f cont again e h k = elim (Option-cases (value f)) [
  | inl i ↦ rw i tt
  | inr ((v, r), i) ↦ elim (Option-cases (cont v f r)) [
    | inl j ↦ rw (i, j) tt
    | inr ((x, w), j) ↦
        let (l, a) = Reads-so 1 n h i in
        let (m, c) = Reads-so 1 (length r) (k v r) j in
        rw (i, j) (omega (arith, l, m), λ g b. more v r x w l a m c g b)
  ]
]
  where
    more :
        (v : A) (r : Text) (x : B) (w : Text)
        → length r < n
        → ((g : ℕ) → 3 * n ≤ 3 * length r + g + 1 → value g ≡ some (v, r))
        → length w < length r
        → ((g : ℕ) → 3 * length r ≤ 3 * length w + g + 1 → cont v g r ≡ some (x, w))
        → (g : ℕ) → 3 * n ≤ 3 * length w + g + 3
        → again g ≡ some (x, w)
    more v r x w l a m c zero b = absurd (omega arith)
    more v r x w l a m c (suc g) b =
        e g ∙ ap (λ o. o >>= λ (v, r). cont v g r) (a g (omega arith)) ∙ c g (omega arith)

pub Elements-step : (f : ℕ) → Value f → Elements f → Elements (suc f)
unfolding read_elements next
Elements-step f h k s =
    loop_round (length s) (λ g. read_value g s) f
      (λ v. next b']' (cons v nil) (cons v) read_elements) (λ g. read_elements g s) (λ g. refl)
      (h s) (λ v r. next-Reads b']' (cons v nil) (cons v) read_elements f k r)

Reads-more {ℓ} :
    {A : Type ℓ} (slack m n : ℕ) (o : Option (A × Text)) (again : ℕ → Option (A × Text))
    → m ≤ n
    → Reads slack m o again
    → Reads slack n o again
Reads-more slack m n none again i h = tt
Reads-more slack m n (some (a, r)) again i (l, h) = (omega arith, λ g b. h g (omega arith))

abbrev member_next : Text → Json → ℕ → Text → Option (Fields × Text)
member_next k v = next b'}' (field k v end) (put_first k v) read_members

-- The value of a member, and what is behind it.
member_rest : (f : ℕ) → Text → Text → Option (Fields × Text)
member_rest f k r = read_value f r >>= λ (v, q). member_next k v f q

pub Members-step : (f : ℕ) → Value f → Members f → Members (suc f)
unfolding read_members next
Members-step f h m s = elim (Option-cases (read_key s)) [
  | inl i ↦ rw i tt
  | inr ((k, r), i) ↦ rw i (
      Reads-more 3 (length r) (length s) _ (λ g. read_members g s)
        (omega (arith, left_behind (length-read_key s) i))
        (loop_round (length r) (λ g. read_value g r) f (member_next k) (λ g. read_members g s)
          (λ g. rw i refl) (h r)
          (λ v q. next-Reads b'}' (field k v end) (put_first k v) read_members f m q)))
]
