-- ===== src/Text/Split/Laws.antt =====
-- The laws of splitting a text, whole and in pieces.
use data_plane_gateway.Prelude.{
  ℕ, zero, suc, ◌-◌, ◌≤◌, ◌≡◌, ◌≢◌, refl, sym, ap, ◌∙◌, true, false, List, [], ◌∷◌, ◌++◌, length,
  init, last?, some, arith, Bool-cases, inl, inr, append-nil, subst, drop, ◌<◌,
}
use data_plane_gateway.Text.{Text, starts_with}
use data_plane_gateway.Text.Affixes.{
  starts_with-append, starts_with-append_long, starts_with-le-length,
}
use data_plane_gateway.Text.Split.{push, cut, split}

-- The last part of a split; a split with a separator has one.
abbrev pub rest : List Text → Text
rest [] = []
rest (p ∷ []) = p
rest (p ∷ q ∷ qs) = rest (q ∷ qs)

pub init-rest : (l : List Text) → l ≢ [] → init l ++ rest l ∷ [] ≡ l
init-rest [] h = absurd (h refl)
init-rest (p ∷ []) h = refl
init-rest (p ∷ q ∷ l) h = ap (◌∷◌ p) (init-rest (q ∷ l) (ground arith))

pub last?-rest : (l : List Text) → l ≢ [] → last? l ≡ some (rest l)
last?-rest [] h = absurd (h refl)
last?-rest (p ∷ []) h = refl
last?-rest (p ∷ q ∷ l) h = last?-rest (q ∷ l) (ground arith)

-- What completes `init l` to `l` is the last part.
tail_after_init : (l m : List Text) → l ≢ [] → l ≡ init l ++ m → m ≡ rest l ∷ []
tail_after_init [] m h e = absurd (h refl)
tail_after_init (x ∷ []) m h e = sym e
tail_after_init (x ∷ y ∷ l) m h e = tail_after_init (y ∷ l) m (ground arith) (ground arith)

-- A list with an element has one or more.
data Parts : List Text → Type 0 where
  one : (p : Text) → Parts (p ∷ [])
  more : (p q : Text) (ps : List Text) → Parts (p ∷ q ∷ ps)

Parts-cases : (l : List Text) → l ≢ [] → Parts l
Parts-cases [] h = absurd (h refl)
Parts-cases (p ∷ []) h = one p
Parts-cases (p ∷ q ∷ ps) h = more p q ps

push-ne-nil : (c : ℕ) (l : List Text) → push c l ≢ []
unfolding push
push-ne-nil c [] = ground arith
push-ne-nil c (p ∷ ps) = ground arith

starts_with-drop_all : (p s : Text) → starts_with p s ≡ true → p ++ drop (length p) s ≡ s
unfolding starts_with
starts_with-drop_all [] s h = refl
starts_with-drop_all (a ∷ p) [] h = absurd (ground arith)
starts_with-drop_all (a ∷ p) (b ∷ s) h = ground (arith, starts_with-drop_all p s)

-- Behind a prefix stands the rest of the text.
starts_with-drop :
    (p : Text) (c : ℕ) (s : Text)
    → 0 < length p
    → starts_with p (c ∷ s) ≡ true
    → p ++ drop (length p - 1) s ≡ c ∷ s
starts_with-drop [] c s h e = elim h [ ]
starts_with-drop (a ∷ p) c s h e = ground (arith, starts_with-drop_all (a ∷ p) (c ∷ s) e)

module _ (sep : Text) where
  cut_pass : (k c : ℕ) (s : Text) → cut sep (suc k) (c ∷ s) ≡ cut sep k s
  unfolding cut
  cut_pass k c s = refl

  cut_hit :
      (c : ℕ) (s : Text)
      → starts_with sep (c ∷ s) ≡ true
      → cut sep zero (c ∷ s) ≡ [] ∷ cut sep (length sep - 1) s
  unfolding cut
  cut_hit c s h = rw (h, cut)

  cut_miss :
      (c : ℕ) (s : Text)
      → starts_with sep (c ∷ s) ≡ false
      → cut sep zero (c ∷ s) ≡ push c (cut sep zero s)
  unfolding cut
  cut_miss c s h = rw (h, cut)

  pub cut-ne-nil : (k : ℕ) (s : Text) → cut sep k s ≢ []
  unfolding cut
  cut-ne-nil k [] = ground arith
  cut-ne-nil (suc k) (c ∷ s) = cut-ne-nil k s
  cut-ne-nil zero (c ∷ s) = ground (arith, push-ne-nil c (cut sep zero s))

  -- A text that is cut into one part is that part.
  pub cut_single : (s p : Text) → cut sep zero s ≡ p ∷ [] → s ≡ p
  cut_single [] p h = unfold cut in ground arith
  cut_single (c ∷ s) p h = elim (Bool-cases (starts_with sep (c ∷ s))) [
    | inl hit ↦ absurd (ground (arith, cut_hit c s hit, cut-ne-nil (length sep - 1) s))
    | inr miss ↦
        from (cut sep zero s) (Parts-cases _ (cut-ne-nil zero s)) (cut_single s)
          (rw (cut_miss c s miss) at h)
  ]
    where
      from :
          (l : List Text)
          → Parts l
          → ((x : Text) → l ≡ x ∷ [] → s ≡ x)
          → push c l ≡ p ∷ []
          → c ∷ s ≡ p
      from l (one x) ih h = unfold push in ground (arith, ih x refl)
      from l (more x y zs) ih h = unfold push in ground arith

  -- A text that is cut into several parts is as long as the separator.
  cut_several :
      (s p q : Text) (ps : List Text) → cut sep zero s ≡ p ∷ q ∷ ps → length sep ≤ length s
  cut_several [] p q ps h = unfold cut in ground arith
  cut_several (c ∷ s) p q ps h = elim (Bool-cases (starts_with sep (c ∷ s))) [
    | inl hit ↦ starts_with-le-length sep (c ∷ s) hit
    | inr miss ↦
        from (cut sep zero s) (Parts-cases _ (cut-ne-nil zero s)) (cut_several s)
          (rw (cut_miss c s miss) at h)
  ]
    where
      from :
          (l : List Text)
          → Parts l
          → ((x y : Text) (zs : List Text) → l ≡ x ∷ y ∷ zs → length sep ≤ length s)
          → push c l ≡ p ∷ q ∷ ps
          → length sep ≤ suc (length s)
      from l (one x) ih h = unfold push in absurd (ground arith)
      from l (more x y zs) ih h = omega (arith, ih x y zs refl)

  -- The cut of `a ++ b` is the cut of `a`, but for its last part, which is cut with `b`.
  abbrev pub IsCutThrough : List Text → List Text → Text → Type 0
  IsCutThrough whole l b = whole ≡ init l ++ cut sep zero (rest l ++ b)

  through_hit :
      (l w : List Text) (b : Text) → l ≢ [] → IsCutThrough w l b → IsCutThrough ([] ∷ w) ([] ∷ l) b
  through_hit [] w b h e = absurd (h refl)
  through_hit (p ∷ l) w b h e = ap (◌∷◌ []) e

  through_miss :
      (c : ℕ) (a b : Text)
      → starts_with sep (c ∷ a) ≡ false
      → (l : List Text) → Parts l
      → cut sep zero a ≡ l
      → IsCutThrough (cut sep zero (a ++ b)) l b
      → IsCutThrough (cut sep zero (c ∷ a ++ b)) (push c l) b
  unfolding push
  through_miss c a b miss l (one p) e ih = rw (cut_single a p e)
  through_miss c a b miss l (more p q ps) e ih =
      let long : length sep ≤ length (c ∷ a) = omega (arith, cut_several a p q ps e) in
      let still : starts_with sep (c ∷ (a ++ b)) ≡ false =
        starts_with-append_long sep (c ∷ a) b long ∙ miss in
      rw (cut_miss c (a ++ b) still, ih)

  pub cut-append :
      (k : ℕ) (a b : Text) → k ≤ length a → IsCutThrough (cut sep k (a ++ b)) (cut sep k a) b
  unfolding cut
  cut-append zero [] b h = refl
  cut-append (suc k) [] b h = elim h [ ]
  cut-append (suc k) (c ∷ a) b h = cut-append k a b (omega arith)
  cut-append zero (c ∷ a) b h = elim (Bool-cases (starts_with sep (c ∷ a))) [
    | inl hit ↦
        let short : length sep - 1 ≤ length a =
          omega (arith, starts_with-le-length sep (c ∷ a) hit) in
        rw (cut_hit c a hit, cut_hit c (a ++ b) (starts_with-append sep (c ∷ a) b hit))
          (through_hit _ _ b (cut-ne-nil (length sep - 1) a)
            (cut-append (length sep - 1) a b short))
    | inr miss ↦ rw (cut_miss c a miss) (
        through_miss c a b miss _ (Parts-cases _ (cut-ne-nil zero a)) refl
          (cut-append zero a b (omega arith)))
  ]

  -- The last part holds no separator.
  pub cut-rest : (s : Text) → cut sep zero (rest (cut sep zero s)) ≡ rest (cut sep zero s) ∷ []
  cut-rest s = tail_after_init (cut sep zero s) _ (cut-ne-nil zero s) (
      subst
        (λ t. cut sep zero t ≡ init (cut sep zero s) ++ cut sep zero (rest (cut sep zero s) ++ []))
        (append-nil s) (cut-append zero s [] (omega arith))
      ∙ ap (λ t. init (cut sep zero s) ++ cut sep zero t) (append-nil (rest (cut sep zero s))))

  -- The parts joined by the separator: parts.join(sep).
  abbrev pub join : List Text → Text
  join [] = []
  join (p ∷ []) = p
  join (p ∷ q ∷ ps) = p ++ sep ++ join (q ∷ ps)

  join-push : (c : ℕ) (l : List Text) → l ≢ [] → join (push c l) ≡ c ∷ join l
  unfolding push
  join-push c [] h = absurd (h refl)
  join-push c (p ∷ []) h = refl
  join-push c (p ∷ q ∷ ps) h = refl

  join-cons_nil : (l : List Text) → l ≢ [] → join ([] ∷ l) ≡ sep ++ join l
  join-cons_nil [] h = absurd (h refl)
  join-cons_nil (p ∷ l) h = refl

  join-cut : (k : ℕ) (s : Text) → 0 < length sep → join (cut sep k s) ≡ drop k s
  join-cut zero [] h = unfold cut in refl
  join-cut (suc k) [] h = unfold cut in refl
  join-cut (suc k) (c ∷ s) h = rw (cut_pass k c s) (join-cut k s h)
  join-cut zero (c ∷ s) h = elim (Bool-cases (starts_with sep (c ∷ s))) [
    | inl hit ↦
        rw
          (
            cut_hit c s hit,
            join-cons_nil _ (cut-ne-nil (length sep - 1) s),
            join-cut (length sep - 1) s h,
          )
          (starts_with-drop sep c s h hit)
    | inr miss ↦ rw (cut_miss c s miss, join-push c _ (cut-ne-nil zero s), join-cut zero s h)
  ]

-- Joining the parts of a split gives the text back.
pub join-split : (s sep : Text) → 0 < length sep → join sep (split s sep) ≡ s
join-split s [] h = elim h [ ]
join-split s (a ∷ sep) h = unfold split in join-cut (a ∷ sep) 0 s h

-- Text may be split as it arrives: the last part is split again in front of what follows.
pub split-append :
    (a b sep : Text)
    → 0 < length sep
    → split (a ++ b) sep ≡ init (split a sep) ++ split (rest (split a sep) ++ b) sep
split-append a b [] h = elim h [ ]
split-append a b (c ∷ sep) h = unfold split in cut-append (c ∷ sep) 0 a b (omega arith)

pub split-ne-nil : (s sep : Text) → 0 < length sep → split s sep ≢ []
split-ne-nil s [] h = elim h [ ]
split-ne-nil s (c ∷ sep) h = unfold split in cut-ne-nil (c ∷ sep) 0 s

pub split-rest :
    (s sep : Text) → 0 < length sep → split (rest (split s sep)) sep ≡ rest (split s sep) ∷ []
split-rest s [] h = elim h [ ]
split-rest s (c ∷ sep) h = unfold split in cut-rest (c ∷ sep) s

pub split-nil : (sep : Text) → 0 < length sep → split [] sep ≡ [] ∷ []
split-nil [] h = elim h [ ]
split-nil (c ∷ sep) h = unfold split in refl
