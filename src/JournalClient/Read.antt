-- ===== src/JournalClient/Read.antt =====
-- What `JournalClient.read` of client/src/journal_client.ts sends and returns.
use data_plane_gateway.Prelude.{ℕ, ◌≡◌, true, false, none, some, List, [], ◌∷◌, ◌++◌, flatten}
use data_plane_gateway.Text.{codes}
use data_plane_gateway.Js.{returned, thrown, Thrown, type_error}
use data_plane_gateway.Json.{obj, Fields, lookup}
use data_plane_gateway.Streams.{pipe_through}
use data_plane_gateway.Streams.Stages.{unwrap_result}
use data_plane_gateway.Result
use data_plane_gateway.Result.{Result, new_ok, new_err, present}
use data_plane_gateway.Util.Fetch.{
  Request, Response, resolved, rejected, Network, refused, response_value, failure_value, fetch,
  post, settle, do_fetch, body_json, failure_json,
}
use data_plane_gateway.Util.Fetch.Laws.{
  settle-refused, from_stream_response_lem, from_stream_response_missing,
  from_stream_response-raised,
}
use data_plane_gateway.Gen.Broker.Messages.{ProtocolReadRequest, encode_protocol_read_request}
use data_plane_gateway.JournalClient.{JournalClient, read_url, read, read_body}
use data_plane_gateway.Streams.{Ending}
use data_plane_gateway.Streams.TextDecoder.Laws.{received}
use data_plane_gateway.JournalClient.Documents.{documents, read_stages_lem}

module _ (network : Network) (this : JournalClient) (req : ProtocolReadRequest)
    (sent : List Request) where
  -- The request of `read`.
  abbrev pub read_request : Request
  read_request = post (read_url this) this.auth_token (encode_protocol_read_request req)

  -- If the answer is a response that is ok and has a body, `read` sends one request and returns a
  -- stream of what is unwrapped of the documents of the text that is received, wherever the network
  -- has cut the bytes into chunks; the stream ends as the body, unless unwrapping fails.
  pub read_response :
      (r : Response) (chunks : List (List ℕ)) (e : Ending)
      → network sent read_request ≡ resolved r
      → r.ok ≡ true
      → r.body ≡ some (record { chunks = chunks; ending = e })
      → read network this req sent ≡ (
        returned (
            new_ok (
              pipe_through unwrap_result
                (record { chunks = documents (received e (flatten chunks)); ending = e }))),
        sent ++ read_request ∷ [],
      )
  read_response r chunks e n h b =
      unfold read do_fetch fetch settle Result.ok Result.unwrap new_ok present read_body in
      rw (n, h, b, read_stages_lem chunks e)

  -- If the answer is a response that is not ok and whose body is a JSON object with an object as
  -- its member `error`, `read` sends one request and returns an error with that member as its
  -- body and the `httpStatus` in it as its status.
  pub read_refused :
      (r : Response) (fields inner : Fields)
      → network sent read_request ≡ resolved r
      → r.ok ≡ false
      → body_json r.body ≡ returned (obj fields)
      → lookup (codes "error") fields ≡ some (obj inner)
      → read network this req sent ≡ (
        returned (
            new_err (record {
              body = some (obj inner);
              response = refused r;
              status = lookup (codes "httpStatus") inner;
            })),
        sent ++ read_request ∷ [],
      )
  read_refused r fields inner e h b k =
      unfold read do_fetch fetch Result.ok Result.unwrap_err new_err present in
      rw (
        e,
        settle-refused r h,
        from_stream_response_lem (refused r) fields inner (sent ++ read_request ∷ [])
            (unfold failure_json in b) k,
      )

  -- A refusal whose body is a JSON object without the member `error` is not returned as an error:
  -- the promise of `read` is rejected with a `TypeError`.
  pub read_refused_plainly :
      (r : Response) (fields : Fields)
      → network sent read_request ≡ resolved r
      → r.ok ≡ false
      → body_json r.body ≡ returned (obj fields)
      → lookup (codes "error") fields ≡ none
      → read network this req sent ≡ (thrown type_error, sent ++ read_request ∷ [])
  read_refused_plainly r fields e h b k =
      unfold read do_fetch fetch Result.ok Result.unwrap_err new_err present in
      rw (
        e,
        settle-refused r h,
        from_stream_response_missing (refused r) fields (sent ++ read_request ∷ [])
            (unfold failure_json in b) k,
      )

  -- If `fetch` throws, `read` returns no error: its promise is rejected with a `TypeError`, since
  -- what was thrown is taken for a response.
  pub read_raised :
      (x : Thrown)
      → network sent read_request ≡ rejected x
      → read network this req sent ≡ (thrown type_error, sent ++ read_request ∷ [])
  read_raised x e =
      unfold read do_fetch fetch settle Result.ok Result.unwrap_err new_ok new_err present in
      rw (e, from_stream_response-raised x (sent ++ read_request ∷ []))
