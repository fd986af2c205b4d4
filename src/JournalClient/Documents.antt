-- ===== src/JournalClient/Documents.antt =====
-- What the streams of client/src/journal_client.ts deliver: the responses of `read` and the
-- documents of `parseJournalDocuments`.
use data_plane_gateway.Prelude.{ℕ, ◌≡◌, refl, ap, ◌∙◌, List, [], map, flatten, init, arith}
use data_plane_gateway.Text.{Text, codes}
use data_plane_gateway.Text.Split.{split}
use data_plane_gateway.Json.{Json, obj, Fields, lookup}
use data_plane_gateway.Utf8.{to_units}
use data_plane_gateway.Streams.{Stream, Ending, pipe_through}
use data_plane_gateway.Streams.TextDecoder.Laws.{received, text_decoder_stream_lem}
use data_plane_gateway.Streams.SplitStream.{split_stream}
use data_plane_gateway.Streams.SplitStream.Laws.{split_stream_lem}
use data_plane_gateway.Streams.Stages.{parse_json_stream, unwrap_result}
use data_plane_gateway.Streams.Stages.Laws.{parse_all, parse_json_stream_lem, unwrap_result_lem}
use data_plane_gateway.Streams.Content.Laws.{
  IsMessages, message_values, all_points, decode_content_lem,
}
use data_plane_gateway.JournalClient.{read_stages, parse_journal_documents}

-- The JSON documents of a text: its lines but what is behind the last line break, less those that
-- are not JSON.
abbrev pub documents : Text → List Json
documents t = parse_all (init (split t (codes "\n")))

-- A stream of texts, cut into lines and parsed.
pub lines_lem :
    (r : Stream Text)
    → pipe_through parse_json_stream (pipe_through (split_stream (codes "\n")) r)
      ≡ record { chunks = documents (flatten r.chunks); ending = r.ending }
lines_lem r =
    ap (pipe_through parse_json_stream) (split_stream_lem (codes "\n") r (omega arith))
    ∙ parse_json_stream_lem
        (record { chunks = init (split (flatten r.chunks) (codes "\n")); ending = r.ending })

-- However the bytes of a body were cut into chunks, inside a character or a line too, and whether
-- it closes or fails, `read` unwraps the documents of the text that was received, in order, and its
-- stream ends as the body.
pub read_stages_lem :
    (chunks : List (List ℕ)) (e : Ending)
    → read_stages (record { chunks = chunks; ending = e })
      ≡ pipe_through unwrap_result
          (record { chunks = documents (received e (flatten chunks)); ending = e })
unfolding read_stages
read_stages_lem chunks e =
    let (r, q, h, k) = text_decoder_stream_lem chunks e in
    ap (pipe_through unwrap_result) (
      ap (λ t. pipe_through parse_json_stream (pipe_through (split_stream (codes "\n")) t)) q
      ∙ lines_lem r
      ∙ rw (h, k) refl)

-- If the documents of the text of a body are JSON objects, `read` delivers the `result` of each,
-- in order, and ends as the body.
pub read_stages_objects :
    (chunks : List (List ℕ)) (e : Ending) (fs : List Fields)
    → documents (received e (flatten chunks)) ≡ map obj fs
    → read_stages (record { chunks = chunks; ending = e })
      ≡ record { chunks = map (lookup (codes "result")) fs; ending = e }
read_stages_objects chunks e fs h =
    read_stages_lem chunks e
    ∙ ap (λ ds. pipe_through unwrap_result (record { chunks = ds; ending = e })) h
    ∙ (unwrap_result_lem fs e []).0

-- Of messages whose contents are base64 of whole UTF-8 characters and begin with no byte order
-- mark, the documents are those of the text of all contents together: a document may be cut
-- between messages, and a message may carry several.
pub parse_journal_documents_lem :
    (ms : List (Fields × List ℕ)) (e : Ending)
    → IsMessages ms
    → parse_journal_documents (record { chunks = message_values ms; ending = e })
      ≡ record { chunks = documents (to_units (all_points ms)); ending = e }
unfolding parse_journal_documents
parse_journal_documents_lem ms e h =
    let (r, q, t, k) = decode_content_lem ms e h in
    ap (λ t. pipe_through parse_json_stream (pipe_through (split_stream (codes "\n")) t)) q
    ∙ lines_lem r
    ∙ rw (t, k) refl
