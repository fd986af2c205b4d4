-- ===== src/EndToEnd.antt =====
-- From the broker to the application: `JournalProxy.Read` of journal_server.go relays the messages of
-- a journal, the HTTP gateway, which is library code, writes them to the body of a response, and
-- client/src/journal_client.ts and client/src/streams.ts make documents of it.
use data_plane_gateway.Prelude.{ℕ, ◌≡◌, List, map, flatten}
use data_plane_gateway.Text.{Text}
use data_plane_gateway.Json.{Json, obj}
use data_plane_gateway.Streams.{closed}
use data_plane_gateway.Streams.TextDecoder.Laws.{received}
use data_plane_gateway.JournalClient.RoundTrip.{printed, wrapped_fields}

-- The body of a stream, as it is documented: each message as the `result` of an object on a line of
-- its own.
abbrev pub IsStreamBody : (List Json → List (List ℕ)) → List Json → Type 0
IsStreamBody to_body messages =
    received closed (flatten (to_body messages)) ≡ printed (map obj (map wrapped_fields messages))
