-- ===== src/Sort/Laws.antt =====
-- Sorting by a consistent comparison function: order, rearrangement, and the part that the order
-- of the input plays.
use mathlib.Core.List.{Perm, Permᴰ}
use mathlib.Core.List.Perm
use mathlib.Core.Logic.{∥∥₁_elim}
use data_plane_gateway.Prelude.{
  ◌≡◌, refl, ◌∙◌, true, false, List, [], ◌∷◌, All, arith, Bool-cases, inl, inr, subst, ap₂,
}
use data_plane_gateway.Prelude.Int.{ℤ, pos, neg, is_nonpos}
use data_plane_gateway.Sort.{insert, sort}

-- A consistent comparison function on the elements that `P` admits.
pub record IsConsistent {ℓ κ} {A : Type ℓ} (compare_fn : A → A → ℤ) (P : A → Type κ)
    : Type (ℓ ⊔ κ) where
  pub flip : (a b : A) → compare_fn b a ≡ neg (compare_fn a b)
  pub trans :
      (a b c : A)
      → P a
      → P b
      → P c
      → is_nonpos (compare_fn a b) ≡ true
      → is_nonpos (compare_fn b c) ≡ true
      → is_nonpos (compare_fn a c) ≡ true

module _ {ℓ} {A : Type ℓ} (compare_fn : A → A → ℤ) where
  insert-perm : (x : A) (l : List A) → Perm (insert compare_fn x l) (x ∷ l)
  unfolding insert
  insert-perm x [] = Perm.rfl
  insert-perm x (y ∷ ys) = elim (Bool-cases (is_nonpos (compare_fn x y))) [
    | inl h ↦ rw h Perm.rfl
    | inr h ↦ rw h (Perm.trans (Perm.cons y (insert-perm x ys)) (Perm.swap x y ys))
  ]

  pub sort-perm : (l : List A) → Perm (sort compare_fn l) l
  unfolding sort
  sort-perm [] = Perm.rfl
  sort-perm (x ∷ xs) = Perm.trans (insert-perm x (sort compare_fn xs)) (Perm.cons x (sort-perm xs))

  -- No element compares greater than a later one.
  abbrev pub IsSorted : List A → Type 0
  IsSorted [] = Unit
  IsSorted (x ∷ xs) = All (λ y. is_nonpos (compare_fn x y) ≡ true) xs × IsSorted xs

module _ {ℓ κ} {A : Type ℓ} (P : A → Type κ) (compare_fn : A → A → ℤ) where
  pub insert-All : (x : A) (l : List A) → P x → All P l → All P (insert compare_fn x l)
  unfolding insert
  insert-All x [] p h = (p, tt)
  insert-All x (y ∷ ys) p (q, h) = elim (Bool-cases (is_nonpos (compare_fn x y))) [
    | inl e ↦ rw e (p, (q, h))
    | inr e ↦ rw e (q, insert-All x ys p h)
  ]

  pub sort-All : (l : List A) → All P l → All P (sort compare_fn l)
  unfolding sort
  sort-All [] h = tt
  sort-All (x ∷ xs) (p, h) = insert-All x (sort compare_fn xs) p (sort-All xs h)

module _ {ℓ κ} {A : Type ℓ} {P : A → Type κ} {compare_fn : A → A → ℤ}
    (c : IsConsistent compare_fn P) where
  nonpos_total : (a b : A) → is_nonpos (compare_fn a b) ≡ false → is_nonpos (compare_fn b a) ≡ true
  nonpos_total a b h = ground (arith, c.flip a b)

  below :
      (a b : A) (l : List A)
      → P a
      → P b
      → All P l
      → is_nonpos (compare_fn a b) ≡ true
      → All (λ y. is_nonpos (compare_fn b y) ≡ true) l
      → All (λ y. is_nonpos (compare_fn a y) ≡ true) l
  below a b [] pa pb pl h k = tt
  below a b (y ∷ ys) pa pb (py, pl) h (k, ks) =
      (c.trans a b y pa pb py h k, below a b ys pa pb pl h ks)

  insert-IsSorted :
      (x : A) (l : List A)
      → P x
      → All P l
      → IsSorted compare_fn l
      → IsSorted compare_fn (insert compare_fn x l)
  unfolding insert
  insert-IsSorted x [] p h s = (tt, tt)
  insert-IsSorted x (y ∷ ys) p (q, h) (s, ss) = elim (Bool-cases (is_nonpos (compare_fn x y))) [
    | inl e ↦ rw e ((e, below x y ys p q h e s), (s, ss))
    | inr e ↦ rw e (
      insert-All (λ z. is_nonpos (compare_fn y z) ≡ true) compare_fn x ys (nonpos_total x y e) s,
      insert-IsSorted x ys p h ss,
    )
  ]

  pub sort-IsSorted : (l : List A) → All P l → IsSorted compare_fn (sort compare_fn l)
  unfolding sort
  sort-IsSorted [] h = tt
  sort-IsSorted (x ∷ xs) (p, h) =
      insert-IsSorted x (sort compare_fn xs) p (sort-All P compare_fn xs h) (sort-IsSorted xs h)

  -- Elements that compare equal are equal.
  abbrev pub IsFaithful : Type (ℓ ⊔ κ)
  IsFaithful = (a b : A) → P a → P b → compare_fn a b ≡ pos 0 → a ≡ b

  insert_comm :
      IsFaithful
      → (x y : A) (l : List A) → P x
      → P y
      → All P l
      → insert compare_fn x (insert compare_fn y l) ≡ insert compare_fn y (insert compare_fn x l)
  unfolding insert
  insert_comm f x y [] px py h = ground (arith, c.flip x y, f x y px py)
  insert_comm f x y (z ∷ l) px py (pz, h) = ground (
    arith,
    c.flip x y,
    f x y px py,
    c.trans x y z px py pz,
    c.trans y x z py px pz,
    insert_comm f x y l px py h,
  )

All-Permᴰ {ℓ κ} : {A : Type ℓ} (P : A → Type κ) {l r : List A} → Permᴰ l r → All P l → All P r
All-Permᴰ P Permᴰ.nil h = tt
All-Permᴰ P (Permᴰ.cons e d) (p, h) = (subst P e p, All-Permᴰ P d h)
All-Permᴰ P (Permᴰ.swap e f) (p, (q, h)) = (subst P f q, (subst P e p, h))
All-Permᴰ P (Permᴰ.trans d d') h = All-Permᴰ P d' (All-Permᴰ P d h)

module _ {ℓ κ} {A : Type ℓ} {P : A → Type κ} {compare_fn : A → A → ℤ}
    (c : IsConsistent compare_fn P) (f : IsFaithful c) where
  sort-Permᴰ : {l r : List A} → Permᴰ l r → All P l → sort compare_fn l ≡ sort compare_fn r
  unfolding sort
  sort-Permᴰ Permᴰ.nil h = refl
  sort-Permᴰ (Permᴰ.cons e d) (p, h) = ap₂ (insert compare_fn) e (sort-Permᴰ d h)
  sort-Permᴰ (Permᴰ.swap {a} {b} {l = l} e f') (p, (q, h)) =
      insert_comm c f a b (sort compare_fn l) p q (sort-All P compare_fn l h)
      ∙ ap₂ (λ x y. insert compare_fn x (insert compare_fn y (sort compare_fn l))) f' e
  sort-Permᴰ (Permᴰ.trans d d') h = sort-Permᴰ d h ∙ sort-Permᴰ d' (All-Permᴰ P d h)

  pub sort-eq_of_perm :
      IsSet (List A) → {l r : List A} → Perm l r → All P l → sort compare_fn l ≡ sort compare_fn r
  sort-eq_of_perm s {l} {r} p h = ∥∥₁_elim p (s _ _) (λ d. sort-Permᴰ d h)
