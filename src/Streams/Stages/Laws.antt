-- ===== src/Streams/Stages/Laws.antt =====
-- What `parseJSONStream` and `unwrapResult` deliver.
use data_plane_gateway.Prelude.{◌≡◌, refl, List, [], ◌∷◌, ◌++◌, map}
use data_plane_gateway.Text.{Text, codes}
use data_plane_gateway.Js.{type_error}
use data_plane_gateway.Json.{Json, null, obj, Fields, lookup}
use data_plane_gateway.Json.Parse.{parse}
use data_plane_gateway.Streams.{
  Stream, Ending, closed, errored, feed, feed-returned, feed-thrown, feed-closed, prepend,
  pipe_through,
}
use data_plane_gateway.Streams.Stages.{enqueue_parsed, parse_json_stream, unwrap_result}

-- The chunks that are JSON, parsed.
unfoldable pub parse_all : List Text → List Json
parse_all [] = []
parse_all (t ∷ ts) = enqueue_parsed (parse t) ++ parse_all ts

parse_json_feed :
    (ts : List Text) (s : Unit) (e : Ending)
    → feed parse_json_stream s ts e ≡ record { chunks = parse_all ts; ending = e }
unfolding parse_all
parse_json_feed [] s closed = unfold parse_json_stream in feed-closed parse_json_stream s refl
parse_json_feed [] s (errored x) = unfold feed in refl
parse_json_feed (t ∷ ts) s e =
    rw
      (
        feed-returned parse_json_stream s t ts e {s' = s} {bs = enqueue_parsed (parse t)}
            (unfold parse_json_stream in refl),
        parse_json_feed ts s e,
      )
      (unfold prepend in refl)

-- The documents are the chunks that are JSON, in order; a chunk that is not JSON is skipped, and
-- the stream ends as its source, whatever the chunks are.
pub parse_json_stream_lem :
    (r : Stream Text)
    → pipe_through parse_json_stream r ≡ record { chunks = parse_all r.chunks; ending = r.ending }
unfolding pipe_through
parse_json_stream_lem r = parse_json_feed r.chunks tt r.ending

unwrap_feed :
    (fs : List Fields) (s : Unit) (e : Ending)
    → feed unwrap_result s (map obj fs) e
      ≡ record { chunks = map (lookup (codes "result")) fs; ending = e }
unwrap_feed [] s closed = unfold unwrap_result in feed-closed unwrap_result s refl
unwrap_feed [] s (errored x) = unfold feed in refl
unwrap_feed (f ∷ fs) s e =
    rw
      (
        feed-returned unwrap_result s (obj f) (map obj fs) e {s' = s}
            {bs = lookup (codes "result") f ∷ []} (unfold unwrap_result in refl),
        unwrap_feed fs s e,
      )
      (unfold prepend in refl)

unwrap_feed_null :
    (fs : List Fields) (rest : List Json) (s : Unit) (e : Ending)
    → feed unwrap_result s (map obj fs ++ null ∷ rest) e
      ≡ record { chunks = map (lookup (codes "result")) fs; ending = errored type_error }
unwrap_feed_null [] rest s e =
    feed-thrown unwrap_result s null rest e {x = type_error} (unfold unwrap_result in refl)
unwrap_feed_null (f ∷ fs) rest s e =
    rw
      (
        feed-returned unwrap_result s (obj f) (map obj fs ++ null ∷ rest) e {s' = s}
            {bs = lookup (codes "result") f ∷ []} (unfold unwrap_result in refl),
        unwrap_feed_null fs rest s e,
      )
      (unfold prepend in refl)

-- Of JSON objects their member `result` is passed on, `undefined` where it is missing, and the
-- stream ends as its source. A `null` among them ends the stream with a `TypeError`, and what
-- follows it is lost.
pub unwrap_result_lem :
    (fs : List Fields) (e : Ending) (rest : List Json)
    → (pipe_through unwrap_result (record { chunks = map obj fs; ending = e })
        ≡ record { chunks = map (lookup (codes "result")) fs; ending = e })
      × (pipe_through unwrap_result (record { chunks = map obj fs ++ null ∷ rest; ending = e })
          ≡ record { chunks = map (lookup (codes "result")) fs; ending = errored type_error })
unfolding pipe_through
unwrap_result_lem fs e rest = (unwrap_feed fs tt e, unwrap_feed_null fs rest tt e)
