-- ===== src/Streams/Lengths.antt =====
-- How many chunks the stages of client/src/streams.ts deliver.
use data_plane_gateway.Prelude.{
  ℕ, ◌+◌, ◌-◌, ◌≤◌, ◌≡◌, ap, inl, inr, Bool-cases, Option, none, some, List, [], ◌∷◌, flatten, init,
  length, length-append, arith,
}
use data_plane_gateway.Text.{Text, codes, starts_with}
use data_plane_gateway.Text.Split.{push, cut, split}
use data_plane_gateway.Js.{Outcome, returned, thrown, Outcome-cases, ◌>>=◌}
use data_plane_gateway.Json.{Json, member}
use data_plane_gateway.Json.Parse.{parse}
use data_plane_gateway.Streams.{
  Stream, Ending, closed, errored, Transformer, prepend, feed, feed-returned, feed-thrown,
  feed-closed, pipe_through,
}
use data_plane_gateway.Streams.SplitStream.{split_stream}
use data_plane_gateway.Streams.SplitStream.Laws.{split_stream_lem}
use data_plane_gateway.Streams.Stages.{enqueue_parsed, parse_json_stream, unwrap_result}
use data_plane_gateway.Streams.TextDecoder.{enqueue_text, text_decoder_stream}

length-push : (c : ℕ) (ps : List Text) → length (push c ps) ≤ length ps + 1
unfolding push
length-push c [] = omega arith
length-push c (p ∷ ps) = omega arith

length-cut : (sep : ℕ) (s : Text) → length (cut (sep ∷ []) 0 s) ≤ length s + 1
unfolding cut
length-cut sep [] = omega arith
length-cut sep (c ∷ s) = elim (Bool-cases (starts_with (sep ∷ []) (c ∷ s))) [
  | inl h ↦ rw (h, cut) (omega (arith, length-cut sep s))
  | inr h ↦ rw (h, cut) (omega (arith, length-cut sep s, length-push c (cut (sep ∷ []) 0 s)))
]

length-init : (l : List Text) → length (init l) ≤ length l - 1
length-init [] = omega arith
length-init (x ∷ []) = omega arith
length-init (x ∷ y ∷ l) = omega (arith, length-init (y ∷ l))

pub length-lines :
    (sep : ℕ) (r : Stream Text)
    → length (pipe_through (split_stream (sep ∷ [])) r).chunks ≤ length (flatten r.chunks)
length-lines sep r = omega (
  arith,
  ap (λ s. length s.chunks) (split_stream_lem (sep ∷ []) r (omega arith)),
  length-init (split (flatten r.chunks) (sep ∷ [])),
  cut_lem,
)
  where
    cut_lem : length (split (flatten r.chunks) (sep ∷ [])) ≤ length (flatten r.chunks) + 1
    cut_lem = unfold split in length-cut sep (flatten r.chunks)

-- What is enqueued by a call of `transform`, and by one of `flush`.
abbrev queued : {S B : Type 0} → Outcome (S × List B) → List B
queued (returned (s, bs)) = bs
queued (thrown e) = []

abbrev flushed : {B : Type 0} → Outcome (List B) → List B
flushed (returned bs) = bs
flushed (thrown e) = []

module _ {S A B : Type 0} (t : Transformer S A B) where
  -- Every chunk makes one chunk at most, and the end makes `k` at most.
  abbrev IsThin : ℕ → Type 0
  IsThin k =
      ((s : S) (a : A) → length (queued (t.transform s a)) ≤ 1)
      × ((s : S) → length (flushed (t.flush s)) ≤ k)

  length-feed :
      (k : ℕ)
      → IsThin k
      → (s : S) (chunks : List A) (e : Ending)
      → length (feed t s chunks e).chunks ≤ length chunks + k
  length-feed k h s [] (errored e) = unfold feed in omega arith
  length-feed k (_, h) s [] closed = elim (Outcome-cases (t.flush s)) [
    | inl (bs, q) ↦
        omega (
          arith,
          ap (λ r. length r.chunks) (feed-closed t s q),
          h s,
          ap (λ o. length (flushed o)) q,
        )
    | inr (e, q) ↦ unfold feed in rw (q, feed) (omega arith)
  ]
  length-feed k (g, h) s (a ∷ chunks) e = elim (Outcome-cases (t.transform s a)) [
    | inl ((s', bs), q) ↦ omega (
      arith,
      ap (λ r. length r.chunks) (feed-returned t s a chunks e q),
      g s a,
      ap (λ o. length (queued o)) q,
      length-prepend bs (feed t s' chunks e),
      length-feed k (g, h) s' chunks e,
    )
    | inr (x, q) ↦ omega (arith, ap (λ r. length r.chunks) (feed-thrown t s a chunks e q))
  ]
    where
      length-prepend :
          (bs : List B) (r : Stream B) → length (prepend bs r).chunks ≡ length bs + length r.chunks
      length-prepend bs r = unfold prepend in length-append bs r.chunks

  pub length-pipe_through :
      (k : ℕ) → IsThin k → (r : Stream A) → length (pipe_through t r).chunks ≤ length r.chunks + k
  unfolding pipe_through
  length-pipe_through k h r = length-feed k h t.start r.chunks r.ending

length-enqueue_text : (cs : List ℕ) → length (enqueue_text cs) ≤ 1
unfolding enqueue_text
length-enqueue_text [] = omega arith
length-enqueue_text (c ∷ cs) = omega arith

length-enqueue_parsed : (v : Option Json) → length (enqueue_parsed v) ≤ 1
unfolding enqueue_parsed
length-enqueue_parsed none = omega arith
length-enqueue_parsed (some v) = omega arith

pub text_decoder_stream-IsThin : IsThin text_decoder_stream 1
unfolding text_decoder_stream
text_decoder_stream-IsThin = (λ s bytes. length-enqueue_text _, λ s. length-enqueue_text _)

pub parse_json_stream-IsThin : IsThin parse_json_stream 0
unfolding parse_json_stream
parse_json_stream-IsThin = (λ s chunk. length-enqueue_parsed (parse chunk), λ s. omega arith)

pub unwrap_result-IsThin : IsThin unwrap_result 0
unfolding unwrap_result
unwrap_result-IsThin =
    (λ s chunk. length-unwrapped s (member chunk (codes "result")), λ s. omega arith)
  where
    length-unwrapped :
        (s : Unit) (m : Outcome (Option Json))
        → length (queued (m >>= λ r. returned (s, r ∷ []))) ≤ 1
    length-unwrapped s (returned r) = omega arith
    length-unwrapped s (thrown e) = omega arith
