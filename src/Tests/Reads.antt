-- ===== src/Tests/Reads.antt =====
-- Reading the documents of a body to the end, with `readStreamToEnd` of client/src/streams.ts.
use data_plane_gateway.Prelude.{ℕ, none, List, [], ◌∷◌}
use data_plane_gateway.Text.{Text, codes}
use data_plane_gateway.Js.{Outcome, network_error}
use data_plane_gateway.Json.{Json, num, str, obj, Fields, end, field}
use data_plane_gateway.Json.Stringify.{json_value}
use data_plane_gateway.Streams.{Stream, closed, errored}
use data_plane_gateway.Gateway.{Reply, Source, Sink, eof, answer}
use data_plane_gateway.Gateway.Relay.{read}
use data_plane_gateway.Prelude.{map}
use data_plane_gateway.JournalClient.RoundTrip.{printed, wrapped_fields}
use data_plane_gateway.Schedule.Pipes.Documents.{message_objects}
use data_plane_gateway.Schedule.Reader.{Pumps}
use data_plane_gateway.Schedule.Pipes.{read_part, read_start, document_part, document_start}
use data_plane_gateway.Schedule.Pipes.Documents.{Reads_total}

-- {"a":1} in the contents of two messages, cut inside the document, and the bytes of the body in two
-- chunks.
abbrev content_of : Text → Fields
content_of t = field (codes "content") (str t) end

abbrev two_contents : List (Fields × List ℕ)
two_contents =
    (content_of (codes "eyJhIg=="), codes "{\"a\"")
    ∷ (content_of (codes "OjF9Cg=="), codes ":1}\n")
    ∷ []

abbrev first_bytes : List ℕ
first_bytes = codes "{\"result\":{\"content\":\"eyJhIg==\"}}\n{\"resu"

abbrev second_bytes : List ℕ
second_bytes = codes "lt\":{\"content\":\"OjF9Cg==\"}}\n"

abbrev cut_body : Stream (List ℕ)
cut_body = record { chunks = first_bytes ∷ second_bytes ∷ []; ending = closed }

abbrev one_document : List Json
one_document = obj (field (codes "a") (num (codes "1")) end) ∷ []

-- What the promise settles to in one order of the moves.
abbrev settled :
    (o : Outcome (List Json)) × Pumps
      (document_part read_part)
      (document_start read_part (read_start cut_body))
      []
      o
settled = Reads_total (document_start read_part (read_start cut_body)) []

-- The same body, which fails behind its bytes.
abbrev failing_body : Stream (List ℕ)
failing_body = record { chunks = first_bytes ∷ second_bytes ∷ []; ending = errored network_error }

abbrev failed_reading :
    (o : Outcome (List Json)) × Pumps
      (document_part read_part)
      (document_start read_part (read_start failing_body))
      []
      o
failed_reading = Reads_total (document_start read_part (read_start failing_body)) []

-- A broker that streams the two messages, and an HTTP gateway whose bodies are one chunk: printed JSON
-- is ASCII here, whose code units are its bytes.
abbrev broker : Unit {0} → ℕ → Reply (Source Json)
broker ctx req = answer (record { messages = message_objects two_contents; ending = eof })

abbrev accept : Sink Json
accept sent a = none

abbrev to_body : List Json → List (List ℕ)
to_body messages = printed (map obj (map wrapped_fields messages)) ∷ []

abbrev relayed_body : Stream (List ℕ)
relayed_body = record { chunks = to_body (read (λ c. c) broker accept tt 0).1; ending = closed }

abbrev relayed_reading :
    (o : Outcome (List Json)) × Pumps
      (document_part read_part)
      (document_start read_part (read_start relayed_body))
      []
      o
relayed_reading = Reads_total (document_start read_part (read_start relayed_body)) []
