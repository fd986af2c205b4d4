-- ===== src/Schedule/Runs.antt =====
-- Runs of a part of a pipe: moves inside, and chunks that the reader takes, in any order.
use data_plane_gateway.Prelude.{
  ℕ, zero, suc, ◌+◌, ◌<◌, ◌≤◌, ◌≡◌, refl, sym, ap, ◌∙◌, subst, inl, inr, List, [], ◌∷◌, ◌++◌,
  append-nil, append_assoc, arith,
}
use data_plane_gateway.Streams.{Ending, Stream, prepend}
use data_plane_gateway.Schedule.Cuts.{Cuts, Cuts-trans, Cuts-prepend}
use data_plane_gateway.Schedule.System.{System, IsSound}
use data_plane_gateway.Schedule.Through.Rest.{prepend_append}

module _ {A : Type 0} (sys : System A) where
  -- A run from `x`, with the chunks that the reader has taken and the number of moves.
  pub data Run (x : sys.State) : List A → ℕ → sys.State → Type 0 where
    start : Run x [] 0 x
    moved :
        {ds : List A} {n : ℕ} {y z : sys.State} → Run x ds n y → sys.Step y z → Run x ds (n + 1) z
    taken :
        {ds : List A} {n : ℕ} {y z : sys.State} {a : A}
        → Run x ds n y
        → sys.Pull y a z
        → Run x (ds ++ a ∷ []) (n + 1) z

  prepend-nil : (r : Stream A) → prepend [] r ≡ r
  prepend-nil r = unfold prepend in refl

  -- What was taken, with what is still to come, is what was to come at first, unless cut by an
  -- error.
  pub Run-Cuts :
      IsSound sys
      → {x y : sys.State} {ds : List A} {n : ℕ} → Run x ds n y
      → Cuts (sys.rest x) (prepend ds (sys.rest y))
  Run-Cuts sound {x} start = inl (prepend-nil (sys.rest x))
  Run-Cuts sound (moved {ds} {y} {z} r s) =
      Cuts-trans _ _ _ (Run-Cuts sound r) (Cuts-prepend ds _ _ (sound.Step-Cuts y z s))
  Run-Cuts sound (taken {ds} {y} {z} {a} r p) = Cuts-trans _ _ _ (Run-Cuts sound r) (
      inl (
        sym (prepend_append ds (a ∷ []) (sys.rest z))
        ∙ ap (prepend ds) (sym (sound.Pull-rest y a z p))))

  -- No run has more moves than its start allows.
  pub Run-moves :
      IsSound sys
      → {x y : sys.State} {ds : List A} {n : ℕ} → Run x ds n y
      → n + sys.moves y ≤ sys.moves x
  Run-moves sound start = omega arith
  Run-moves sound (moved {y} {z} r s) = omega (arith, Run-moves sound r, sound.Step-moves y z s)
  Run-moves sound (taken {y} {z} {a} r p) =
      omega (arith, Run-moves sound r, sound.Pull-moves y a z p)

  -- A run that has come to the end.
  abbrev pub Ended : sys.State → List A → Type 0
  Ended x ds =
      (more : List A) × (n : ℕ) × (y : sys.State) × (e : Ending) × Run x (ds ++ more) n y
      × sys.Closes y e

  ended_more : (x : sys.State) (ds cs : List A) → Ended x (ds ++ cs) → Ended x ds
  ended_more x ds cs (more, n, y, e, r, c) =
      (cs ++ more, n, y, e, subst (λ l. Run x l n y) (append_assoc ds cs more) r, c)

  goes_on :
      IsSound sys
      → (fuel : ℕ) (x y : sys.State) (ds : List A) (n : ℕ) → sys.moves y < fuel
      → Run x ds n y
      → Ended x ds
  goes_on sound zero x y ds n h r = absurd (omega arith)
  goes_on sound (suc fuel) x y ds n h r = elim (sound.progress y) [
    | inl (e, c) ↦ ([], n, y, e, subst (λ l. Run x l n y) (sym (append-nil ds)) r, c)
    | inr (inl (a, z, p)) ↦ ended_more x ds (a ∷ []) (
        goes_on sound fuel x z (ds ++ a ∷ []) (n + 1) (omega (arith, sound.Pull-moves y a z p))
          (taken r p))
    | inr (inr (z, s)) ↦
        goes_on sound fuel x z ds (n + 1) (omega (arith, sound.Step-moves y z s)) (moved r s)
  ]

  -- Every run can be carried on to the end.
  pub Run-Ended : IsSound sys → {x y : sys.State} {ds : List A} {n : ℕ} → Run x ds n y → Ended x ds
  Run-Ended sound {x} {y} {ds} {n} r = goes_on sound (suc (sys.moves y)) x y ds n (omega arith) r

  -- A reader that was told of the end was given what a pipe in one turn delivers, or a part of it in
  -- front of an error.
  pub Run-Closes :
      IsSound sys
      → {x y : sys.State} {ds : List A} {n : ℕ} → Run x ds n y
      → (e : Ending) → sys.Closes y e
      → Cuts (sys.rest x) (record { chunks = ds; ending = e })
  Run-Closes sound {x} {y} {ds} r e c =
      subst (Cuts (sys.rest x)) (ap (prepend ds) (sound.Closes-rest y e c) ∙ all_taken)
        (Run-Cuts sound r)
    where
      all_taken :
          prepend ds (record { chunks = []; ending = e }) ≡ record { chunks = ds; ending = e }
      all_taken = unfold prepend in ap (λ l. record { chunks = l; ending = e }) (append-nil ds)

  -- At any time the reader was given the first chunks of those that a pipe in one turn delivers.
  pub Run-prefix :
      IsSound sys
      → {x y : sys.State} {ds : List A} {n : ℕ} → Run x ds n y
      → (rest : List A) × (ds ++ rest ≡ (sys.rest x).chunks)
  Run-prefix sound {x} {y} {ds} r = of_cut (sys.rest x) (sys.rest y) (Run-Cuts sound r)
    where
      of_cut : (r s : Stream A) → Cuts r (prepend ds s) → (rest : List A) × (ds ++ rest ≡ r.chunks)
      of_cut r s (inl p) = (s.chunks, unfold prepend in ap (λ x. x.chunks) p)
      of_cut r s (inr (_, _, (rest, p))) =
          (s.chunks ++ rest, sym (append_assoc ds s.chunks rest) ∙ unfold prepend in p)
