-- ===== src/Schedule/Cuts.antt =====
-- Streams that an error has cut short: a `ReadableStream` that fails drops the chunks in its queue.
use data_plane_gateway.Prelude.{
  ◌≤◌, ◌≡◌, refl, sym, ap, ◌∙◌, ◌⊎◌, inl, inr, List, [], ◌∷◌, ◌++◌, append_assoc, length,
  length-append, arith, subst,
}
use data_plane_gateway.Js.{Thrown, Outcome-cases}
use data_plane_gateway.Streams.{
  Ending, closed, errored, Stream, Transformer, prepend, feed, feed-returned, feed-thrown,
}

abbrev pub IsErrored : Ending → Type 0
IsErrored e = (x : Thrown) × (e ≡ errored x)

pub errored-ne-closed : (e : Ending) → e ≡ closed → IsErrored e → ⊥
errored-ne-closed e h (x, k) = ground arith

module _ {A : Type 0} where
  -- The second stream is the first one, or both fail, and the second one's chunks are the first
  -- ones of the first one's.
  abbrev pub Cuts : Stream A → Stream A → Type 0
  Cuts r s =
      (s ≡ r)
      ⊎ IsErrored r.ending × IsErrored s.ending × ((rest : List A) × (s.chunks ++ rest ≡ r.chunks))

  pub Cuts-refl : (r : Stream A) → Cuts r r
  Cuts-refl r = inl refl

  pub Cuts-trans : (r s t : Stream A) → Cuts r s → Cuts s t → Cuts r t
  Cuts-trans r s t (inl p) k = subst (λ x. Cuts x t) p k
  Cuts-trans r s t (inr h) (inl q) = subst (λ x. Cuts r x) (sym q) (inr h)
  Cuts-trans r s t (inr (a, b, (v, p))) (inr (c, d, (w, q))) =
      inr (a, d, (w ++ v, sym (append_assoc t.chunks w v) ∙ ap (λ l. l ++ v) q ∙ p))

  pub Cuts-prepend : (bs : List A) (r s : Stream A) → Cuts r s → Cuts (prepend bs r) (prepend bs s)
  unfolding prepend
  Cuts-prepend bs r s (inl p) = inl (ap (prepend bs) p)
  Cuts-prepend bs r s (inr (a, b, (v, p))) =
      inr (a, b, (v, append_assoc bs s.chunks v ∙ ap (λ l. bs ++ l) p))

  -- A cut stream is no longer.
  pub Cuts-length : (r s : Stream A) → Cuts r s → length s.chunks ≤ length r.chunks
  Cuts-length r s (inl p) = ground (arith, ap (λ x. length x.chunks) p)
  Cuts-length r s (inr (a, b, (v, p))) = ground (arith, ap length p, length-append s.chunks v)

  -- A stream that closes is not cut.
  pub Cuts-closed : (r s : Stream A) → r.ending ≡ closed → Cuts r s → s ≡ r
  Cuts-closed r s h (inl p) = p
  Cuts-closed r s h (inr (a, _, _)) = absurd (errored-ne-closed r.ending h a)

pub prepend-ending : {B : Type 0} (bs : List B) (r : Stream B) → (prepend bs r).ending ≡ r.ending
prepend-ending bs r = unfold prepend in refl

module _ {S A B : Type 0} (t : Transformer S A B) where
  -- Behind a source that fails, a stage fails.
  feed-IsErrored :
      (s : S) (chunks : List A) (x : Thrown) → IsErrored (feed t s chunks (errored x)).ending
  feed-IsErrored s [] x = unfold feed in (x, refl)
  feed-IsErrored s (a ∷ chunks) x = elim (Outcome-cases (t.transform s a)) [
    | inl ((s', bs), h) ↦
        let (y, e) = feed-IsErrored s' chunks x in
        (y, ap (λ r. r.ending) (feed-returned t s a chunks (errored x) h) ∙ prepend-ending bs _ ∙ e)
    | inr (y, h) ↦ (y, ap (λ r. r.ending) (feed-thrown t s a chunks (errored x) h))
  ]

  -- What a stage is given of a source that fails may be less than the source held.
  feed_shorter :
      (s : S) (chunks rest : List A) (x y : Thrown)
      → Cuts (feed t s (chunks ++ rest) (errored x)) (feed t s chunks (errored y))
  feed_shorter s [] rest x y = inr (
    feed-IsErrored s rest x,
    unfold feed in (y, refl),
    ((feed t s rest (errored x)).chunks, unfold feed in refl),
  )
  feed_shorter s (a ∷ chunks) rest x y = elim (Outcome-cases (t.transform s a)) [
    | inl ((s', bs), h) ↦
        rw
          (
            feed-returned t s a (chunks ++ rest) (errored x) h,
            feed-returned t s a chunks (errored y) h,
          )
          (Cuts-prepend bs _ _ (feed_shorter s' chunks rest x y))
    | inr (z, h) ↦
        rw
          (feed-thrown t s a (chunks ++ rest) (errored x) h, feed-thrown t s a chunks (errored y) h)
          (Cuts-refl (record { chunks = []; ending = errored z }))
  ]

  abbrev pub fed : S → Stream A → Stream B
  fed s r = feed t s r.chunks r.ending

  -- A stage behind a cut stream delivers a cut of what it delivers behind the whole one.
  pub feed-Cuts : (s : S) (r r' : Stream A) → Cuts r r' → Cuts (fed s r) (fed s r')
  feed-Cuts s r r' (inl p) = inl (ap (fed s) p)
  feed-Cuts s r r' (inr ((x, hx), (y, hy), (rest, p))) =
      rw (hx, hy, ← p) (feed_shorter s r'.chunks rest x y)
