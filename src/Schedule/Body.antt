-- ===== src/Schedule/Body.antt =====
-- The body of a response, as a source of chunks: the network has delivered some of them, and where
-- it fails, chunks that were not read yet may be lost.
use data_plane_gateway.Prelude.{◌<◌, ◌≡◌, ◌≢◌, refl, ◌⊎◌, inl, inr, List, [], ◌∷◌, length, arith}
use data_plane_gateway.Js.{Thrown}
use data_plane_gateway.Streams.{Ending, errored, Stream, prepend}
use data_plane_gateway.Schedule.Cuts.{Cuts}
use data_plane_gateway.Schedule.System.{System, IsSound}

module _ (A : Type 0) where
  -- The failure drops what is queued.
  pub data BodyStep (x y : Stream A) : Type 0 where
    drop_queue :
        (e : Thrown)
        → x.ending ≡ errored e
        → x.chunks ≢ []
        → y ≡ record { chunks = []; ending = errored e }
        → BodyStep x y

  abbrev pub body : System A
  body = record {
    State = Stream A;
    Step = BodyStep;
    Pull = λ x a y. x ≡ prepend (a ∷ []) y;
    Closes = λ x e. x ≡ record { chunks = []; ending = e };
    rest = λ x. x;
    moves = λ x. length x.chunks;
  }

  body_step : (x y : Stream A) → BodyStep x y → Cuts x y × (length y.chunks < length x.chunks)
  body_step x y (drop_queue e h n q) =
      rw q (inr ((e, h), (e, refl), (x.chunks, refl)), longer x.chunks n)
    where
      longer : (l : List A) → l ≢ [] → 0 < length l
      longer [] n = absurd (n refl)
      longer (a ∷ l) n = omega arith

  body_progress :
      (chunks : List A) (e : Ending)
      → ((d : Ending) × body.Closes (record { chunks = chunks; ending = e }) d)
        ⊎ ((a : A) × (y : Stream A) × body.Pull (record { chunks = chunks; ending = e }) a y)
        ⊎ ((y : Stream A) × BodyStep (record { chunks = chunks; ending = e }) y)
  unfolding prepend
  body_progress [] e = inl (e, refl)
  body_progress (a ∷ chunks) e = inr (inl (a, record { chunks = chunks; ending = e }, refl))

  pub body-IsSound : IsSound body
  body-IsSound = record {
    Step-Cuts = λ x y s. (body_step x y s).0;
    Pull-rest = λ x a y p. p;
    Closes-rest = λ x e c. c;
    Step-moves = λ x y s. (body_step x y s).1;
    Pull-moves = λ x a y p. pulled x a y p;
    progress = λ x. body_progress x.chunks x.ending;
  }
    where
      pulled :
          (x : Stream A) (a : A) (y : Stream A)
          → x ≡ prepend (a ∷ []) y
          → length y.chunks < length x.chunks
      pulled x a y p = unfold prepend in rw p (omega arith)
