-- ===== src/Schedule/Through.antt =====
-- A `TransformStream` behind a part that runs by itself, for the transformers of
-- client/src/streams.ts. What it enqueues waits in its queue for the reader.
pub mod Rest
pub mod Moves
pub mod Progress
pub mod Laws
use data_plane_gateway.Prelude.{ℕ, ◌+◌, ◌≡◌, Option, none, some, List, [], ◌∷◌, ◌++◌, length}
use data_plane_gateway.Js.{Outcome, returned, thrown, Thrown}
use data_plane_gateway.Streams.{Ending, closed, errored, Stream, Transformer, prepend}
use data_plane_gateway.Schedule.Cuts.{fed}
use data_plane_gateway.Schedule.System.{System}

-- The part in front, the variables of the transformer, the queue, and how it ended, if it has.
pub record Stage (State S B : Type 0) : Type 0 where
  pub inner : State
  pub own : S
  pub queue : List B
  pub status : Option Ending

module _ {S A B : Type 0} (t : Transformer S A B) (sys : System A) where
  -- While it is open, the part in front may move, and a chunk that it hands over is transformed.
  -- Its end is passed on: after a flush if it closed, at once if it failed. An error empties the
  -- queue.
  pub data StageStep (x y : Stage sys.State S B) : Type 0 where
    upstream :
        (i : sys.State)
        → x.status ≡ none
        → sys.Step x.inner i
        → y ≡ record x { inner = i }
        → StageStep x y
    transform :
        (a : A) (i : sys.State) (s : S) (bs : List B)
        → x.status ≡ none
        → sys.Pull x.inner a i
        → t.transform x.own a ≡ returned (s, bs)
        → y ≡ record { inner = i; own = s; queue = x.queue ++ bs; status = none }
        → StageStep x y
    transform_throws :
        (a : A) (i : sys.State) (e : Thrown)
        → x.status ≡ none
        → sys.Pull x.inner a i
        → t.transform x.own a ≡ thrown e
        → y ≡ record { inner = i; own = x.own; queue = []; status = some (errored e) }
        → StageStep x y
    flush :
        (bs : List B)
        → x.status ≡ none
        → sys.Closes x.inner closed
        → t.flush x.own ≡ returned bs
        → y ≡ record x { queue = x.queue ++ bs; status = some closed }
        → StageStep x y
    flush_throws :
        (e : Thrown)
        → x.status ≡ none
        → sys.Closes x.inner closed
        → t.flush x.own ≡ thrown e
        → y ≡ record x { queue = []; status = some (errored e) }
        → StageStep x y
    abort :
        (e : Thrown)
        → x.status ≡ none
        → sys.Closes x.inner (errored e)
        → y ≡ record x { queue = []; status = some (errored e) }
        → StageStep x y

  -- What is still to be delivered: the queue, and what the rest of the part in front gives.
  unfoldable pub stage_rest : Stage sys.State S B → Stream B
  stage_rest x = elim x.status [
    | none ↦ prepend x.queue (fed t x.own (sys.rest x.inner))
    | some e ↦ record { chunks = x.queue; ending = e }
  ]

  -- The moves in front, one for the end, and one for each chunk that is to be handed over.
  unfoldable pub stage_moves : Stage sys.State S B → ℕ
  stage_moves x = elim x.status [
    | none ↦ sys.moves x.inner + 1 + length (stage_rest x).chunks
    | some e ↦ length x.queue
  ]

  abbrev pub through : System B
  through = record {
    State = Stage sys.State S B;
    Step = StageStep;
    Pull = λ x b y. x ≡ record y { queue = b ∷ y.queue };
    Closes = λ x e. (x.queue ≡ []) × (x.status ≡ some e);
    rest = stage_rest;
    moves = stage_moves;
  }

  abbrev pub stage_start : sys.State → Stage sys.State S B
  stage_start i = record { inner = i; own = t.start; queue = []; status = none }
