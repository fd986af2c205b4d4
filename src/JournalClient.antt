-- ===== src/JournalClient.antt =====
-- client/src/journal_client.ts: the class `JournalClient` and `parseJournalDocuments`.
pub mod Laws
pub mod Documents
pub mod RoundTrip
pub mod Read
pub mod Requests
pub mod Responses
pub mod Rejections
use data_plane_gateway.Prelude.{
  ℕ, Bool, true, false, Option, none, some, List, [], ◌∷◌, ◌++◌, if◌then◌else◌,
}
use data_plane_gateway.Text.{Text, codes}
use data_plane_gateway.Js.{Outcome, returned, thrown, type_error}
use data_plane_gateway.Json.{Json, member, map_array}
use data_plane_gateway.Result
use data_plane_gateway.Result.{Result, new_ok, new_err}
use data_plane_gateway.Util.TrimUrl.{Url, to_text}
use data_plane_gateway.Util.Fetch.{
  Network, Action, ◌>>=◌, lift, Response, Failure, response_value, failure_value, do_fetch,
  body_json, ResponseError, from_response, from_stream_response,
}
use data_plane_gateway.Streams.{Stream, pipe_through}
use data_plane_gateway.Streams.TextDecoder.{text_decoder_stream}
use data_plane_gateway.Streams.SplitStream.{split_stream}
use data_plane_gateway.Streams.Stages.{parse_json_stream, unwrap_result}
use data_plane_gateway.Streams.Content.{decode_content}
use data_plane_gateway.Gen.Broker.Labels.{ProtocolLabelSelector}
use data_plane_gateway.Gen.Broker.Journal.{ProtocolListRequest, encode_protocol_list_request}
use data_plane_gateway.Gen.Broker.Messages.{ProtocolReadRequest, encode_protocol_read_request}
use data_plane_gateway.Selector.{to_label_set}
use data_plane_gateway.Selector.Journal.{JournalSelector}

pub record JournalClient : Type 0 where
  pub auth_token : Text
  pub base_url : Url

-- `${this.baseUrl.toString()}v1/journals/list`
unfoldable pub list_url : JournalClient → Text
list_url this = to_text this.base_url ++ codes "v1/journals/list"

unfoldable pub read_url : JournalClient → Text
read_url this = to_text this.base_url ++ codes "v1/journals/read"

unfoldable pub list_body : JournalSelector → JournalSelector → Json
list_body include exclude = encode_protocol_list_request (record {
  selector =
      some
        (record { include = some (to_label_set include); exclude = some (to_label_set exclude) });
})

-- data.journals!.map((j) => j.spec!)
unfoldable pub journal_specs : Json → Action (List (Option Json))
journal_specs listed = do
  journals ← lift (member listed (codes "journals"))
  lift (map_array (λ j. member j (codes "spec")) journals)

module _ (network : Network) where
  unfoldable pub list :
      JournalClient
      → JournalSelector
      → JournalSelector
      → Action (Result (List (Option Json)) ResponseError)
  list this include exclude = do
    result ← do_fetch network (list_url this) this.auth_token (list_body include exclude)
    if Result.ok result
        then (do
          response ← lift (Result.unwrap result)
          listed ← lift (body_json response.body)
          specs ← journal_specs listed
          lift (returned (new_ok specs)))
        else (do
          failure ← lift (Result.unwrap_err result)
          error ← from_response failure
          lift (returned (new_err error)))

-- The stages behind the body of a response.
unfoldable pub read_stages : Stream (List ℕ) → Stream (Option Json)
read_stages body = pipe_through unwrap_result (
    pipe_through parse_json_stream
      (pipe_through (split_stream (codes "\n")) (pipe_through text_decoder_stream body)))

-- response.body!.pipeThrough(...): `null` has no methods.
unfoldable pub read_body : Option (Stream (List ℕ)) → Outcome (Stream (Option Json))
read_body none = thrown type_error
read_body (some body) = returned (read_stages body)

module _ (network : Network) where
  unfoldable pub read :
      JournalClient → ProtocolReadRequest → Action (Result (Stream (Option Json)) ResponseError)
  read this req = do
    result ← do_fetch network (read_url this) this.auth_token (encode_protocol_read_request req)
    if Result.ok result
        then (do
          response ← lift (Result.unwrap result)
          reader ← lift (read_body response.body)
          lift (returned (new_ok reader)))
        else (do
          failure ← lift (Result.unwrap_err result)
          error ← from_stream_response failure
          lift (returned (new_err error)))

unfoldable pub parse_journal_documents : Stream (Option Json) → Stream Json
parse_journal_documents stream =
    pipe_through parse_json_stream
      (pipe_through (split_stream (codes "\n")) (pipe_through decode_content stream))
