-- ===== src/JournalClient/Laws.antt =====
-- What the methods of client/src/journal_client.ts send and return.
use data_plane_gateway.Prelude.{
  ◌≡◌, refl, ap, ◌∙◌, true, false, Option, none, some, List, [], ◌∷◌, ◌++◌, map, Option-cases, inl,
  inr,
}
use data_plane_gateway.Text.{codes, text_eq}
use data_plane_gateway.Js.{Outcome, returned, thrown, Thrown, type_error, array_value}
use mathlib.Core.Option
use data_plane_gateway.Json.Members.{lookup-opt_self, lookup-opt_other, map_array-encode_list}
use data_plane_gateway.Json.{Json, obj, Fields, lookup, member, map_array, encode_list}
use data_plane_gateway.Gen.Broker.Journal.{
  encode_protocol_journal_spec, ListResponseJournal, encode_list_response_journal,
  ProtocolListResponse, encode_protocol_list_response,
}
use data_plane_gateway.Result
use data_plane_gateway.Result.{Result, new_ok, new_err, present}
use data_plane_gateway.Util.Fetch.{
  Request, Response, resolved, rejected, Network, refused, response_value, failure_value, fetch,
  post, settle, do_fetch, body_json, failure_json, ResponseError,
}
use data_plane_gateway.Util.Fetch.Laws.{settle-refused, from_response_lem, from_response-raised}
use mathlib.Core.List.{Perm}
use data_plane_gateway.Selector.{new_selector}
use data_plane_gateway.Selector.Calls.{JournalCall, journal_calls, new_selector-IsWellFormed}
use data_plane_gateway.Selector.Laws.{to_label_set-journal_calls}
use data_plane_gateway.Selector.Journal.{JournalSelector}
use data_plane_gateway.JournalClient.{JournalClient, list_url, list_body, list, journal_specs}

-- The specs of the journals of a response, as JSON.
abbrev pub listed_spec : ListResponseJournal → Option Json
listed_spec j = Option.map encode_protocol_journal_spec j.spec

spec_lem :
    (j : ListResponseJournal)
    → member (encode_list_response_journal j) (codes "spec") ≡ returned (listed_spec j)
unfolding member encode_list_response_journal text_eq
spec_lem j = ap returned (
    lookup-opt_self _ _ j.spec _ (
      lookup-opt_other _ _ _ j.mod_revision _ refl
      ∙ lookup-opt_other _ _ _ j.route Fields.end refl
      ∙ unfold lookup in refl))

journals_lem :
    (m : ProtocolListResponse)
    → member (encode_protocol_list_response m) (codes "journals")
      ≡ returned (Option.map (encode_list encode_list_response_journal) m.journals)
unfolding member encode_protocol_list_response text_eq
journals_lem m = ap returned (
    lookup-opt_other _ _ _ m.status _ refl
    ∙ lookup-opt_other _ _ _ m.header _ refl
    ∙ lookup-opt_self _ _ m.journals Fields.end (unfold lookup in refl))

-- What `list` makes of the journals of a response: their specs, or the `TypeError` of reading
-- `map` of `undefined`.
abbrev pub answered :
    Option (List ListResponseJournal) → Outcome (Result (List (Option Json)) ResponseError)
answered none = thrown type_error
answered (some js) = returned (new_ok (map listed_spec js))

specs_lem :
    (m : ProtocolListResponse) (js : List ListResponseJournal) (sent : List Request)
    → m.journals ≡ some js
    → journal_specs (encode_protocol_list_response m) sent ≡ (returned (map listed_spec js), sent)
specs_lem m js sent e =
    unfold journal_specs in
    rw (
      journals_lem m,
      e,
      map_array-encode_list (λ j. member j (codes "spec")) encode_list_response_journal listed_spec
          js spec_lem,
    )

no_specs_lem :
    (m : ProtocolListResponse) (sent : List Request)
    → m.journals ≡ none
    → journal_specs (encode_protocol_list_response m) sent ≡ (thrown type_error, sent)
no_specs_lem m sent e = unfold journal_specs map_array in rw (journals_lem m, e)

module _ (network : Network) (this : JournalClient) (include exclude : JournalSelector)
    (sent : List Request) where
  -- The request of `list`.
  abbrev pub list_request : Request
  list_request = post (list_url this) this.auth_token (list_body include exclude)

  -- If the answer is a response that is ok and whose body is a list response, `list` sends one
  -- request and returns the specs of the journals of that response, in its order. If the response
  -- has no journals, the promise is rejected with a `TypeError`.
  pub list_response :
      (r : Response) (m : ProtocolListResponse)
      → network sent list_request ≡ resolved r
      → r.ok ≡ true
      → body_json r.body ≡ returned (encode_protocol_list_response m)
      → list network this include exclude sent ≡ (answered m.journals, sent ++ list_request ∷ [])
  list_response r m e h b = elim (Option-cases m.journals) [
    | inl k ↦
        unfold list do_fetch fetch settle Result.ok Result.unwrap new_ok present in
        rw (e, h, b, no_specs_lem m (sent ++ list_request ∷ []) k, k)
    | inr (js, k) ↦
        unfold list do_fetch fetch settle Result.ok Result.unwrap new_ok present in
        rw (e, h, b, specs_lem m js (sent ++ list_request ∷ []) k, k)
  ]

  -- If the answer is a response that is not ok and whose body is a JSON object, `list` sends one
  -- request and returns an error with that object as its body and its `code` as its status.
  pub list_refused :
      (r : Response) (fields : Fields)
      → network sent list_request ≡ resolved r
      → r.ok ≡ false
      → body_json r.body ≡ returned (obj fields)
      → list network this include exclude sent ≡ (
        returned (
            new_err (record {
              body = some (obj fields);
              response = refused r;
              status = lookup (codes "code") fields;
            })),
        sent ++ list_request ∷ [],
      )
  list_refused r fields e h b =
      unfold list do_fetch fetch Result.ok Result.unwrap_err new_err present in
      rw (
        e,
        settle-refused r h,
        from_response_lem (refused r) fields (sent ++ list_request ∷ []) (unfold failure_json in b),
      )

  -- If `fetch` throws, as it does without a connection, `list` returns no error: its promise is
  -- rejected with a `TypeError`, since what was thrown is taken for a response.
  pub list_raised :
      (x : Thrown)
      → network sent list_request ≡ rejected x
      → list network this include exclude sent ≡ (thrown type_error, sent ++ list_request ∷ [])
  list_raised x e =
      unfold list do_fetch fetch settle Result.ok Result.unwrap_err new_ok new_err present in
      rw (e, from_response-raised x (sent ++ list_request ∷ []))

-- What `list` does, does not depend on the order in which the methods of the two selectors that it
-- is given were called.
pub list-journal_calls :
    (network : Network) (this : JournalClient)
    (include include' exclude exclude' : List JournalCall) (sent : List Request)
    → Perm include include'
    → Perm exclude exclude'
    → list network this
        (journal_calls include new_selector)
        (journal_calls exclude new_selector)
        sent
      ≡ list network this
          (journal_calls include' new_selector)
          (journal_calls exclude' new_selector)
          sent
list-journal_calls network this include include' exclude exclude' sent p q =
    unfold list list_body in
    rw (
      to_label_set-journal_calls new_selector include include' new_selector-IsWellFormed p,
      to_label_set-journal_calls new_selector exclude exclude' new_selector-IsWellFormed q,
    )
