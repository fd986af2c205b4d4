-- ===== src/Streams.antt =====
-- Streams of chunks, for client/src/streams.ts: what a reader of a `ReadableStream` is given, and
-- `pipeThrough` with a `TransformStream` that is made of functions `transform` and `flush`.
-- The reader keeps up with the stream here: what was queued before an error is delivered.
pub mod SplitStream
pub mod TextDecoder
pub mod Stages
pub mod Content
pub mod ReadToEnd
pub mod Lines
pub mod Lengths
use data_plane_gateway.Prelude.{◌≡◌, refl, true, List, [], ◌∷◌, ◌++◌}
use data_plane_gateway.Js.{Outcome, returned, thrown, Thrown, Value}
use data_plane_gateway.Text.{codes}

-- How a stream ends, when its chunks have been read.
pub data Ending : Type 0 where
  closed : Ending
  errored : Thrown → Ending

pub record Stream {ℓ} (A : Type ℓ) : Type ℓ where
  pub chunks : List A
  pub ending : Ending

-- A stream is an object, which counts as true and prints as {}.
instance abbrev pub stream_value {ℓ} : {A : Type ℓ} → Value (Stream A)
stream_value = record { truthy = λ r. true; stringify = λ r. codes "{}" }

-- The variables of a transformer are its state. `transform` returns what it enqueues.
pub record Transformer {ℓ} (S A B : Type ℓ) : Type ℓ where
  pub start : S
  pub transform : S → A → Outcome (S × List B)
  pub flush : S → Outcome (List B)

module _ {ℓ} {B : Type ℓ} where
  -- Chunks in front of a stream.
  unfoldable pub prepend : List B → Stream B → Stream B
  prepend bs r = record { chunks = bs ++ r.chunks; ending = r.ending }

  -- What is enqueued on closing, and the end of the stream.
  unfoldable pub finish : Outcome (List B) → Stream B
  finish (returned bs) = record { chunks = bs; ending = closed }
  finish (thrown e) = record { chunks = []; ending = errored e }

module _ {ℓ} {S A B : Type ℓ} (t : Transformer S A B) where
  -- An error of the source is passed on without a flush, and one of `transform` ends the stream.
  unfoldable pub feed : S → List A → Ending → Stream B
  unfolding prepend finish
  feed s [] closed = finish (t.flush s)
  feed s [] (errored e) = record { chunks = []; ending = errored e }
  feed s (a ∷ rest) e = elim (t.transform s a) [
    | returned (s', bs) ↦ prepend bs (feed s' rest e)
    | thrown x ↦ record { chunks = []; ending = errored x }
  ]

  unfoldable pub pipe_through : Stream A → Stream B
  unfolding feed
  pipe_through r = feed t.start r.chunks r.ending

  pub feed-returned :
      (s : S) (a : A) (rest : List A) (e : Ending) {s' : S} {bs : List B}
      → t.transform s a ≡ returned (s', bs)
      → feed s (a ∷ rest) e ≡ prepend bs (feed s' rest e)
  unfolding feed
  feed-returned s a rest e h = rw (h, feed)

  pub feed-thrown :
      (s : S) (a : A) (rest : List A) (e : Ending) {x : Thrown}
      → t.transform s a ≡ thrown x
      → feed s (a ∷ rest) e ≡ record { chunks = []; ending = errored x }
  unfolding feed
  feed-thrown s a rest e h = rw (h, feed)

  pub feed-closed :
      (s : S) {bs : List B}
      → t.flush s ≡ returned bs
      → feed s [] closed ≡ record { chunks = bs; ending = closed }
  unfolding feed
  feed-closed s h = rw (h, finish)
