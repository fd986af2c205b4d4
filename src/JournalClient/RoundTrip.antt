-- ===== src/JournalClient/RoundTrip.antt =====
-- What client/src/journal_client.ts reads of newline-delimited JSON that was printed by
-- `JSON.stringify`.
use data_plane_gateway.Prelude.{
  ℕ, ◌≡◌, refl, ap, ◌∙◌, true, Option, some, List, [], ◌∷◌, ◌++◌, map, flatten, init,
  init-append_last, All, arith,
}
use data_plane_gateway.Text.{Text, codes, text_eq}
use data_plane_gateway.Js.{returned}
use data_plane_gateway.Json.{Json, obj, Fields, end, field, lookup, truthy}
use data_plane_gateway.Json.Stringify.{stringify, json_value}
use data_plane_gateway.Json.RoundTrip.Values.{IsJson}
use data_plane_gateway.Json.RoundTrip.Whole.{parse-stringify}
use data_plane_gateway.Json.RoundTrip.Lines.{IsLine, stringify-IsLine}
use data_plane_gateway.Utf8.{to_units}
use data_plane_gateway.Streams.{Ending, closed}
use data_plane_gateway.Streams.Lines.{terminated, split-terminated}
use data_plane_gateway.Streams.Stages.{enqueue_parsed}
use data_plane_gateway.Streams.Stages.Laws.{parse_all}
use data_plane_gateway.Streams.Content.Laws.{IsMessages, message_values, all_points}
use data_plane_gateway.Streams.ReadToEnd.{read_stream_to_end}
use data_plane_gateway.Streams.ReadToEnd.Laws.{read_stream_to_end-All}
use data_plane_gateway.JournalClient.{read_stages, parse_journal_documents}
use data_plane_gateway.Streams.TextDecoder.Laws.{received}
use data_plane_gateway.JournalClient.Documents.{
  documents, read_stages_objects, parse_journal_documents_lem,
}

-- Values as newline-delimited JSON.
abbrev pub printed : List Json → Text
printed ds = terminated b'\n' (map stringify ds)

parse_all-stringify : (ds : List Json) → All IsJson ds → parse_all (map stringify ds) ≡ ds
unfolding parse_all enqueue_parsed
parse_all-stringify [] h = refl
parse_all-stringify (d ∷ ds) (hd, h) = rw (parse-stringify d hd, parse_all-stringify ds h)

All-IsLine : (ds : List Json) → All IsJson ds → All IsLine (map stringify ds)
All-IsLine [] h = tt
All-IsLine (d ∷ ds) (hd, h) = (stringify-IsLine d hd, All-IsLine ds h)

documents-printed :
    (ds : List Json) (tail : Text)
    → All IsJson ds
    → IsLine tail
    → documents (printed ds ++ tail) ≡ ds
documents-printed ds tail h k =
    ap (λ l. parse_all (init l))
      (split-terminated b'\n' (map stringify ds) tail (All-IsLine ds h) k)
    ∙ ap parse_all (init-append_last (map stringify ds) tail)
    ∙ parse_all-stringify ds h

-- { result: d }, as the gateway wraps a response of a stream.
abbrev pub wrapped_fields : Json → Fields
wrapped_fields d = field (codes "result") d end

wrapped-IsJson : (ds : List Json) → All IsJson ds → All IsJson (map obj (map wrapped_fields ds))
unfolding IsJson lookup
wrapped-IsJson [] h = tt
wrapped-IsJson (d ∷ ds) (hd, h) = ((ground arith, hd, refl, tt), wrapped-IsJson ds h)

results-wrapped :
    (ds : List Json) → map (lookup (codes "result")) (map wrapped_fields ds) ≡ map some ds
unfolding lookup text_eq
results-wrapped [] = refl
results-wrapped (d ∷ ds) = ap (◌∷◌ (some d)) (results-wrapped ds)

-- If the bytes of a body spell values of JSON, each as the `result` of an object on a line of its
-- own, `read` delivers these values in their order and ends as the body, wherever the bytes were
-- cut into chunks and whether the body closes or fails behind them; an incomplete line at the end is
-- dropped. The values are any whose numbers are literals of JSON, whose strings hold code units of
-- 16 bits, and whose objects repeat no name.
pub read_stages-printed :
    (ds : List Json) (tail : Text) (chunks : List (List ℕ)) (e : Ending)
    → All IsJson ds
    → IsLine tail
    → received e (flatten chunks) ≡ printed (map obj (map wrapped_fields ds)) ++ tail
    → read_stages (record { chunks = chunks; ending = e })
      ≡ record { chunks = map some ds; ending = e }
read_stages-printed ds tail chunks e h k q =
    read_stages_objects chunks e (map wrapped_fields ds) (
      ap documents q
      ∙ documents-printed (map obj (map wrapped_fields ds)) tail (wrapped-IsJson ds h) k)
    ∙ ap (λ (l : List (Option Json)). record { chunks = l; ending = e }) (results-wrapped ds)

-- If the contents of some messages spell values of JSON, each on a line of its own, the documents
-- are these values in their order, wherever the text was cut into messages; an incomplete line at
-- the end is dropped, and the stream of documents ends as the stream of messages. Contents are
-- base64 of whole UTF-8 characters and begin with no byte order mark; the values are any whose
-- numbers are literals of JSON, whose strings hold code units of 16 bits, and whose objects repeat
-- no name.
pub parse_journal_documents-printed :
    (ds : List Json) (tail : Text) (ms : List (Fields × List ℕ)) (e : Ending)
    → All IsJson ds
    → IsLine tail
    → IsMessages ms
    → to_units (all_points ms) ≡ printed ds ++ tail
    → parse_journal_documents (record { chunks = message_values ms; ending = e })
      ≡ record { chunks = ds; ending = e }
parse_journal_documents-printed ds tail ms e h k m q =
    parse_journal_documents_lem ms e m
    ∙ ap (λ l. record { chunks = l; ending = e }) (ap documents q ∙ documents-printed ds tail h k)

-- If the contents of the messages of a stream that closes spell values of JSON, each on a line of
-- its own, and no value counts as false, then reading the documents to the end returns all the
-- values, in their order; an incomplete line at the end is dropped. Contents are base64 of whole
-- UTF-8 characters and begin with no byte order mark; the values are any whose numbers are literals
-- of JSON, whose strings hold code units of 16 bits, and whose objects repeat no name.
pub read_stream_to_end-printed :
    (ds : List Json) (tail : Text) (ms : List (Fields × List ℕ))
    → All IsJson ds
    → IsLine tail
    → IsMessages ms
    → to_units (all_points ms) ≡ printed ds ++ tail
    → All (λ d. truthy d ≡ true) ds
    → read_stream_to_end
        (parse_journal_documents (record { chunks = message_values ms; ending = closed }))
      ≡ returned ds
read_stream_to_end-printed ds tail ms h k m q t =
    ap read_stream_to_end (parse_journal_documents-printed ds tail ms closed h k m q)
    ∙ read_stream_to_end-All ds closed t
