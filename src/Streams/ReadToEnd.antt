-- ===== src/Streams/ReadToEnd.antt =====
-- `readStreamToEnd` of client/src/streams.ts.
pub mod Laws
use data_plane_gateway.Prelude.{Bool, true, false, Option, none, some, List, [], ◌∷◌, ◌++◌}
use data_plane_gateway.Js.{Outcome, returned, thrown, Value}
use data_plane_gateway.Streams.{Stream, Ending, closed, errored}

module _ {ℓ} {A : Type ℓ} ⦃v : Value A⦄ where
  -- The recursive `pump`: it goes on while the stream is not done and the chunk counts as true.
  unfoldable pub pump : List A → List A → Ending → Outcome (List A)
  pump results [] closed = returned results
  pump results [] (errored e) = thrown e
  pump results (value ∷ rest) e = elim (v.truthy value) [
    | true ↦ pump (results ++ value ∷ []) rest e
    | false ↦ returned results
  ]

  unfoldable pub read_stream_to_end : Stream A → Outcome (List A)
  unfolding pump
  read_stream_to_end stream = pump [] stream.chunks stream.ending
