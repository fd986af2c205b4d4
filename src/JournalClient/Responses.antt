-- ===== src/JournalClient/Responses.antt =====
-- `list` and `read` of client/src/journal_client.ts, from the bytes of a response on.
use data_plane_gateway.Prelude.{ℕ, ◌≡◌, refl, true, some, List, [], ◌∷◌, ◌++◌, map, flatten, All}
use data_plane_gateway.Text.{Text}
use data_plane_gateway.Js.{returned}
use data_plane_gateway.Json.{Json, obj}
use data_plane_gateway.Json.Stringify.{stringify}
use data_plane_gateway.Json.RoundTrip.Values.{IsJson}
use data_plane_gateway.Json.RoundTrip.Lines.{IsLine}
use data_plane_gateway.Utf8.{decode}
use data_plane_gateway.Result
use data_plane_gateway.Result.{new_ok, present}
use data_plane_gateway.Streams.{Ending, closed}
use data_plane_gateway.Streams.TextDecoder.Laws.{received}
use data_plane_gateway.Util.Fetch.{
  Request, Response, resolved, Network, response_value, fetch, settle, do_fetch,
}
use data_plane_gateway.Util.Fetch.Laws.{body_json-printed}
use data_plane_gateway.Gen.Broker.Journal.{ProtocolListResponse, encode_protocol_list_response}
use data_plane_gateway.Gen.Broker.Messages.{ProtocolReadRequest}
use data_plane_gateway.Selector.Journal.{JournalSelector}
use data_plane_gateway.JournalClient.{JournalClient, list, read, read_body}
use data_plane_gateway.JournalClient.Laws.{list_request, list_response, answered}
use data_plane_gateway.JournalClient.Read.{read_request}
use data_plane_gateway.JournalClient.RoundTrip.{printed, wrapped_fields, read_stages-printed}

-- A response that is ok and has a body.
abbrev pub ok_response : ℕ → List (List ℕ) → Ending → Response
ok_response status chunks e = record {
  ok = true;
  status = status;
  body = some (record { chunks = chunks; ending = e });
}

module _ (network : Network) (this : JournalClient) (sent : List Request) where
  -- If the answer is ok and the bytes of its body, wherever they are cut into chunks, are the UTF-8
  -- of a list response as JSON, then `list` sends one request and returns the specs of the journals
  -- of that response, in its order; if the response has no journals, the promise is rejected with a
  -- `TypeError`. Numbers of the response are literals of JSON, and strings hold code units of 16 bits.
  pub list-stringify :
      (include exclude : JournalSelector) (status : ℕ) (chunks : List (List ℕ))
      (m : ProtocolListResponse)
      → network sent (list_request network this include exclude sent)
        ≡ resolved (ok_response status chunks closed)
      → IsJson (encode_protocol_list_response m)
      → decode (flatten chunks) ≡ stringify (encode_protocol_list_response m)
      → list network this include exclude sent
        ≡ (answered m.journals, sent ++ list_request network this include exclude sent ∷ [])
  list-stringify include exclude status chunks m n h k =
      list_response network this include exclude sent (ok_response status chunks closed) m n refl
        (body_json-printed chunks (encode_protocol_list_response m) h k)

  -- If the answer is ok and the bytes of its body, wherever they are cut into chunks, spell values of
  -- JSON, each as the `result` of an object on a line of its own, then `read` sends one request and
  -- returns a stream of these values, in their order, that ends as the body, whether it closes or
  -- fails; an incomplete line at the end is dropped. Numbers are literals of JSON, strings hold code
  -- units of 16 bits, and objects repeat no name.
  pub read-printed :
      (req : ProtocolReadRequest) (status : ℕ) (ds : List Json) (tail : Text)
      (chunks : List (List ℕ)) (e : Ending)
      → network sent (read_request network this req sent) ≡ resolved (ok_response status chunks e)
      → All IsJson ds
      → IsLine tail
      → received e (flatten chunks) ≡ printed (map obj (map wrapped_fields ds)) ++ tail
      → read network this req sent ≡ (
        returned (new_ok (record { chunks = map some ds; ending = e })),
        sent ++ read_request network this req sent ∷ [],
      )
  read-printed req status ds tail chunks e n h k q =
      unfold read do_fetch fetch settle Result.ok Result.unwrap new_ok present read_body in
      rw (n, read_stages-printed ds tail chunks e h k q)
