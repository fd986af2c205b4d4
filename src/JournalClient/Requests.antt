-- ===== src/JournalClient/Requests.antt =====
-- The requests of client/src/journal_client.ts, as the gateway is sent them.
use data_plane_gateway.Prelude.{◌≡◌, refl, inl, inr, some, List, [], ◌∷◌, ◌++◌}
use data_plane_gateway.Text.{codes}
use data_plane_gateway.Js.{Outcome-cases, array_value}
use data_plane_gateway.Json.{Json, member}
use data_plane_gateway.Result
use data_plane_gateway.Result.{new_ok, new_err, present}
use data_plane_gateway.Util.Fetch.{
  Request, Network, response_value, failure_value, refused, raised, fetch, post, settle, do_fetch,
  body_json, from_response, from_stream_response,
}
use data_plane_gateway.Util.Fetch.Laws.{settle-refused}
use data_plane_gateway.Util.Fetch.Quiet.{
  IsQuiet, from_response-IsQuiet, from_stream_response-IsQuiet, Fetched-cases, bind-IsQuiet,
}
use data_plane_gateway.Json.Parse.{parse}
use data_plane_gateway.Json.RoundTrip.Whole.{parse-stringify}
use data_plane_gateway.Gen.Broker.Messages.{ProtocolReadRequest, encode_protocol_read_request}
use data_plane_gateway.Gen.Broker.Printed.{IsReadRequest16, encode_protocol_read_request-IsJson}
use data_plane_gateway.Selector.Calls.{IsWellFormed}
use data_plane_gateway.Selector.Posted.{Posts, Posts_lem, AreLabels16}
use data_plane_gateway.Selector.Journal.{JournalSelector}
use data_plane_gateway.JournalClient.{
  JournalClient, list_url, list_body, list, journal_specs, read_url, read_body, read,
}
use data_plane_gateway.JournalClient.Laws.{list_request}
use data_plane_gateway.JournalClient.Read.{read_request}

journal_specs-IsQuiet : (listed : Json) → IsQuiet (journal_specs listed)
unfolding journal_specs
journal_specs-IsQuiet listed sent = elim (Outcome-cases (member listed (codes "journals"))) [
  | inl (js, h) ↦ rw h refl
  | inr (e, h) ↦ rw h refl
]

module _ (network : Network) (this : JournalClient) (include exclude : JournalSelector)
    (sent : List Request) where
  list-sent :
      (list network this include exclude sent).1
      ≡ sent ++ list_request network this include exclude sent ∷ []
  unfolding list do_fetch fetch settle Result.ok Result.unwrap Result.unwrap_err new_ok new_err
      present
  list-sent = elim (Fetched-cases (network sent (list_request network this include exclude sent))) [
    | inl (r, h, k) ↦ elim (Outcome-cases (body_json r.body)) [
      | inl (b, l) ↦ rw (h, k, l) (bind-IsQuiet (journal_specs b) _ (journal_specs-IsQuiet b) sent')
      | inr (e, l) ↦ rw (h, k, l) refl
    ]
    | inr (inl (r, h, k)) ↦
        rw (h, settle-refused r k)
          (bind-IsQuiet (from_response (refused r)) _ (from_response-IsQuiet (refused r)) sent')
    | inr (inr (e, h)) ↦
        rw h (bind-IsQuiet (from_response (raised e)) _ (from_response-IsQuiet (raised e)) sent')
  ]
    where
      sent' : List Request
      sent' = sent ++ list_request network this include exclude sent ∷ []

  -- Whatever the network answers, `list` sends one request, whether it returns or throws: a POST to
  -- its URL, from whose body the labels of both selectors are read, each as often, in the order by
  -- name, then by value. The selectors are well formed, and their strings hold code units of 16 bits.
  pub list-Posts :
      IsWellFormed include
      → IsWellFormed exclude
      → AreLabels16 include
      → AreLabels16 exclude
      → (r : Request) × ((list network this include exclude sent).1 ≡ sent ++ r ∷ [])
        × (r.url ≡ list_url this)
        × (r.method ≡ codes "POST")
        × Posts include exclude r.body
  unfolding post list_body
  list-Posts wi we ui ue = (
    list_request network this include exclude sent,
    list-sent,
    refl,
    refl,
    Posts_lem include exclude wi we ui ue,
  )

module _ (network : Network) (this : JournalClient) (req : ProtocolReadRequest)
    (sent : List Request) where
  read-sent : (read network this req sent).1 ≡ sent ++ read_request network this req sent ∷ []
  unfolding read do_fetch fetch settle Result.ok Result.unwrap Result.unwrap_err new_ok new_err
      present
  read-sent = elim (Fetched-cases (network sent (read_request network this req sent))) [
    | inl (r, h, k) ↦ elim (Outcome-cases (read_body r.body)) [
      | inl (b, l) ↦ rw (h, k, l) refl
      | inr (e, l) ↦ rw (h, k, l) refl
    ]
    | inr (inl (r, h, k)) ↦
        rw (h, settle-refused r k)
          (bind-IsQuiet (from_stream_response (refused r)) _
            (from_stream_response-IsQuiet (refused r)) sent')
    | inr (inr (e, h)) ↦ rw h (
        bind-IsQuiet (from_stream_response (raised e)) _ (from_stream_response-IsQuiet (raised e))
          sent')
  ]
    where
      sent' : List Request
      sent' = sent ++ read_request network this req sent ∷ []

  -- Whatever the network answers, `read` sends one request, whether it returns or throws: a POST to
  -- its URL, from whose body the request is read as it is. Its strings hold code units of 16 bits,
  -- and its numbers are literals of JSON.
  pub read_posts :
      IsReadRequest16 req
      → (r : Request) × ((read network this req sent).1 ≡ sent ++ r ∷ [])
        × (r.url ≡ read_url this)
        × (r.method ≡ codes "POST")
        × (parse r.body ≡ some (encode_protocol_read_request req))
  unfolding post
  read_posts h = (
    read_request network this req sent,
    read-sent,
    refl,
    refl,
    parse-stringify (encode_protocol_read_request req) (encode_protocol_read_request-IsJson req h),
  )
