-- ===== src/Streams/Stages.antt =====
-- `parseJSONStream` and `unwrapResult` of client/src/streams.ts.
pub mod Laws
pub mod Fuel
use data_plane_gateway.Prelude.{Option, none, some, List, [], ◌∷◌}
use data_plane_gateway.Text.{Text, codes}
use data_plane_gateway.Js.{Outcome, returned, ◌>>=◌}
use data_plane_gateway.Json.{Json, member}
use data_plane_gateway.Json.Parse.{parse}
use data_plane_gateway.Streams.{Transformer}

-- A chunk that is not JSON is caught and skipped.
unfoldable pub enqueue_parsed : Option Json → List Json
enqueue_parsed none = []
enqueue_parsed (some v) = v ∷ []

unfoldable pub parse_json_stream : Transformer Unit Text Json
unfolding enqueue_parsed
parse_json_stream = record {
  start = tt;
  transform = λ s chunk. returned (s, enqueue_parsed (parse chunk));
  flush = λ s. returned [];
}

-- A chunk without `result` is passed on as `undefined`.
unfoldable pub unwrap_result : Transformer Unit Json (Option Json)
unfolding member
unwrap_result = record {
  start = tt;
  transform = λ s chunk. member chunk (codes "result") >>= λ r. returned (s, r ∷ []);
  flush = λ s. returned [];
}
