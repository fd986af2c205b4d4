-- ===== src/JournalClient/Rejections.antt =====
-- With what `list` and `read` of client/src/journal_client.ts are rejected.
use data_plane_gateway.Prelude.{ℕ, ◌≡◌, refl, inl, inr, Option, none, some, List, [], ◌∷◌, ◌++◌}
use data_plane_gateway.Text.{codes}
use data_plane_gateway.Js.{Thrown, type_error, thrown, Outcome-cases, array_value}
use data_plane_gateway.Json.{Json, member}
use data_plane_gateway.Result
use data_plane_gateway.Result.{new_ok, new_err, present}
use data_plane_gateway.Streams.{Stream}
use data_plane_gateway.Util.Fetch.{
  Request, Network, response_value, failure_value, refused, raised, resolved, rejected, fetch,
  do_fetch, body_json, from_stream_response,
}
use data_plane_gateway.Util.Fetch.Laws.{settle-ok, settle-refused, settle-raised}
use data_plane_gateway.Util.Fetch.Quiet.{Fetched-cases}
use data_plane_gateway.Util.Fetch.Rejections.{
  Throws, Throws-thrown, refused_then, raised_then, IsRejection, member-Throws, map_array-Throws,
  from_stream_response-Throws, then_returned, response-Throws, refused-Throws, raised-Throws,
}
use data_plane_gateway.Gen.Broker.Messages.{ProtocolReadRequest}
use data_plane_gateway.Selector.Journal.{JournalSelector}
use data_plane_gateway.JournalClient.{JournalClient, list, journal_specs, read_body, read}
use data_plane_gateway.JournalClient.Laws.{list_request}
use data_plane_gateway.JournalClient.Read.{read_request}

journal_specs-Throws :
    (P : Thrown → Type 0) (listed : Json) (sent : List Request)
    → P type_error
    → Throws P (journal_specs listed sent).0
unfolding journal_specs
journal_specs-Throws P listed sent t = elim (Outcome-cases (member listed (codes "journals"))) [
  | inr (e, k) ↦ rw k (Throws-thrown P (member-Throws P t listed (codes "journals")) k)
  | inl (js, k) ↦ rw k (
      map_array-Throws P (λ j. member j (codes "spec")) js t
        (λ j. member-Throws P t j (codes "spec")))
]

module _ (network : Network) (this : JournalClient) (sent : List Request) where
  list-Throws :
      (include exclude : JournalSelector)
      → Throws
          (IsRejection (network sent (list_request network this include exclude sent)))
          (list network this include exclude sent).0
  unfolding list do_fetch fetch Result.ok Result.unwrap Result.unwrap_err new_ok new_err present
  list-Throws include exclude =
      elim (Fetched-cases (network sent (list_request network this include exclude sent))) [
        | inl (r, h, k) ↦ elim (Outcome-cases (body_json r.body)) [
          | inl (b, l) ↦
              rw (h, settle-ok r k, l)
                (then_returned (IsRejection (resolved r)) (journal_specs b) _ sent'
                  (journal_specs-Throws (IsRejection (resolved r)) b sent' (inl refl)))
          | inr (e, l) ↦
              rw (h, settle-ok r k, l)
                (Throws-thrown (IsRejection (resolved r)) (response-Throws r) l)
        ]
        | inr (inl (r, h, k)) ↦ rw (h, settle-refused r k) (refused_then _ sent' r)
        | inr (inr (e, h)) ↦ rw (h, settle-raised e) (raised_then _ sent' e)
      ]
    where
      sent' : List Request
      sent' = sent ++ list_request network this include exclude sent ∷ []

  read_body-Throws :
      (P : Thrown → Type 0) (body : Option (Stream (List ℕ)))
      → P type_error
      → Throws P (read_body body)
  unfolding read_body
  read_body-Throws P none t = t
  read_body-Throws P (some s) t = tt

  read-Throws :
      (req : ProtocolReadRequest)
      → Throws
          (IsRejection (network sent (read_request network this req sent)))
          (read network this req sent).0
  unfolding read do_fetch fetch Result.ok Result.unwrap Result.unwrap_err new_ok new_err present
  read-Throws req = elim (Fetched-cases (network sent (read_request network this req sent))) [
    | inl (r, h, k) ↦ elim (Outcome-cases (read_body r.body)) [
      | inl (b, l) ↦ rw (h, settle-ok r k, l) tt
      | inr (e, l) ↦
          rw (h, settle-ok r k, l)
            (Throws-thrown (IsRejection (resolved r))
              (read_body-Throws (IsRejection (resolved r)) r.body (inl refl)) l)
    ]
    | inr (inl (r, h, k)) ↦
        rw (h, settle-refused r k)
          (then_returned (IsRejection (resolved r)) (from_stream_response (refused r)) _ sent' (
            from_stream_response-Throws (IsRejection (resolved r)) (inl refl) (refused r) sent'
              (refused-Throws r)))
    | inr (inr (e, h)) ↦
        rw (h, settle-raised e)
          (then_returned (IsRejection (rejected e)) (from_stream_response (raised e)) _ sent' (
            from_stream_response-Throws (IsRejection (rejected e)) refl (raised e) sent'
              (raised-Throws e)))
  ]
    where
      sent' : List Request
      sent' = sent ++ read_request network this req sent ∷ []

  -- Whatever the network answers, `list` is rejected only with a `TypeError`, with a `SyntaxError`,
  -- or with the error with which the body of the response fails, and if there is no response, with a
  -- `TypeError` only; never with an error of unwrapping the wrong side of a result.
  pub list-IsRejection :
      (include exclude : JournalSelector) (e : Thrown)
      → (list network this include exclude sent).0 ≡ thrown e
      → IsRejection (network sent (list_request network this include exclude sent)) e
  list-IsRejection include exclude e h = Throws-thrown _ (list-Throws include exclude) h

  -- Whatever the network answers, `read` is rejected only with a `TypeError`, with a `SyntaxError`,
  -- or with the error with which the body of the response fails, and if there is no response, with a
  -- `TypeError` only; never with an error of unwrapping the wrong side of a result.
  pub read-IsRejection :
      (req : ProtocolReadRequest) (e : Thrown)
      → (read network this req sent).0 ≡ thrown e
      → IsRejection (network sent (read_request network this req sent)) e
  read-IsRejection req e h = Throws-thrown _ (read-Throws req) h
