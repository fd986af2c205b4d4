-- ===== src/Schedule/Pipes/Documents.antt =====
-- What `readStreamToEnd` makes of the documents of a read, from the bytes of the body on:
-- `parseJournalDocuments` behind `read` of client/src/journal_client.ts, in whatever order the
-- network, the stages and the reader take turns.
use data_plane_gateway.Prelude.{ℕ, ◌≡◌, refl, ap, ◌∙◌, some, List, [], ◌∷◌, ◌++◌, map, flatten, All}
use data_plane_gateway.Text.{Text}
use data_plane_gateway.Js.{Outcome}
use data_plane_gateway.Json.{Json, obj, Fields}
use data_plane_gateway.Json.Stringify.{json_value}
use data_plane_gateway.Json.RoundTrip.Values.{IsJson}
use data_plane_gateway.Json.RoundTrip.Lines.{IsLine}
use data_plane_gateway.Utf8.{to_units}
use data_plane_gateway.Streams.{Stream, Ending}
use data_plane_gateway.Streams.TextDecoder.Laws.{received}
use data_plane_gateway.Streams.Content.Laws.{IsMessages, message_values, all_points}
use data_plane_gateway.JournalClient.{read_stages, parse_journal_documents}
use data_plane_gateway.JournalClient.RoundTrip.{
  printed, wrapped_fields, read_stages-printed, parse_journal_documents-printed,
}
use data_plane_gateway.Schedule.Reader.{Pumps, Pumps_total}
use data_plane_gateway.Schedule.Pipes.{
  read_part, read_start, read_part-IsSound, document_part, document_start, document_part-IsSound,
}

-- A run of `readStreamToEnd` of the documents of a body, to what its promise settles to.
abbrev pub Reads : Stream (List ℕ) → Outcome (List Json) → Type 0
Reads b o = Pumps (document_part read_part) (document_start read_part (read_start b)) [] o

-- The documents of a body, by pipes that work in one turn.
abbrev pub body_documents : Stream (List ℕ) → Stream Json
body_documents b = parse_journal_documents (read_stages b)

pub Reads_total :
    (x : (document_part read_part).State) (results : List Json)
    → (o : Outcome (List Json)) × Pumps (document_part read_part) x results o
Reads_total x results =
    Pumps_total (document_part read_part) (document_part-IsSound read_part read_part-IsSound) x
      results

-- The messages of a read, as JSON.
abbrev pub message_objects : List (Fields × List ℕ) → List Json
message_objects = map (λ m. obj m.0)

some-message_objects :
    (ms : List (Fields × List ℕ)) → map some (message_objects ms) ≡ message_values ms
some-message_objects [] = refl
some-message_objects (m ∷ ms) = ap (◌∷◌ (some (obj m.0))) (some-message_objects ms)

pub body_documents-printed :
    (ds : List Json) (tail tail' : Text) (ms : List (Fields × List ℕ)) (chunks : List (List ℕ))
    (e : Ending)
    → All IsJson ds
    → IsLine tail
    → IsMessages ms
    → to_units (all_points ms) ≡ printed ds ++ tail
    → All IsJson (message_objects ms)
    → IsLine tail'
    → received e (flatten chunks)
      ≡ printed (map obj (map wrapped_fields (message_objects ms))) ++ tail'
    → body_documents (record { chunks = chunks; ending = e }) ≡ record { chunks = ds; ending = e }
body_documents-printed ds tail tail' ms chunks e h k m q hm k' q' =
    ap parse_journal_documents (
      read_stages-printed (message_objects ms) tail' chunks e hm k' q'
      ∙ ap (λ l. record { chunks = l; ending = e }) (some-message_objects ms))
    ∙ parse_journal_documents-printed ds tail ms e h k m q
