-- ===== src/Tests/Client.antt =====
-- Runs of client/src/journal_client.ts and of `ResponseError` of client/src/util.ts.
use data_plane_gateway.Prelude.{ℕ, ◌≡◌, refl, ap, none, some, List, [], ◌∷◌, flatten, arith}
use data_plane_gateway.Text.{Text, codes, text_eq}
use data_plane_gateway.Js.{returned, thrown, type_error}
use data_plane_gateway.Json.{opt, encode_list, num, str, obj, Fields, end, field, lookup}
use data_plane_gateway.Json.Parse.{parse}
use data_plane_gateway.Json.Stringify.{stringify}
use data_plane_gateway.Base64.{btoa}
use data_plane_gateway.Utf8.{decode, encode, to_units, drop_mark}
use data_plane_gateway.Streams.{closed}
use data_plane_gateway.Streams.Content.Laws.{message_values}
use data_plane_gateway.Result.{new_ok, new_err}
use data_plane_gateway.Util.Fetch.{Response, resolved, refused, settle, do_fetch, body_json}
use data_plane_gateway.Gen.Broker.Journal.{encode_protocol_list_response}
use data_plane_gateway.Selector.{Selector, new_selector, push}
use data_plane_gateway.Selector.Calls.{JournalCall, call_collection, call_name, journal_calls}
use data_plane_gateway.JournalClient.{JournalClient, list, read, parse_journal_documents}
use data_plane_gateway.JournalClient.Laws.{list_request, list_refused}
use data_plane_gateway.Json.RoundTrip.Values.{IsJson}
use data_plane_gateway.Json.Scan.{read_number}
use data_plane_gateway.Json.{Json}
use data_plane_gateway.Json.Stringify.{json_value}
use data_plane_gateway.JournalClient.RoundTrip.{parse_journal_documents-printed}
use data_plane_gateway.Gen.Broker.Messages.{encode_protocol_read_request}
use data_plane_gateway.Util.Fetch.{Request}
use data_plane_gateway.JournalClient.{list_url, read_url}
use data_plane_gateway.Selector.Posted.{Posts}
use data_plane_gateway.JournalClient.Requests.{list-Posts, read_posts}
use data_plane_gateway.Util.Fetch.{do_fetch, fetch, parsed}
use data_plane_gateway.Util.Fetch.Rejections.{IsRejection}
use data_plane_gateway.Result.{ok, unwrap, present}
use data_plane_gateway.Js.{syntax_error}
use data_plane_gateway.JournalClient.Rejections.{list-IsRejection, read-IsRejection}
use data_plane_gateway.JournalClient.Responses.{list-stringify, read-printed}
use data_plane_gateway.JournalClient.Read.{read_request, read_refused, read_refused_plainly}
use data_plane_gateway.Tests.Data.{
  gateway, respond, refuse, always, offline, denial, denial_fields, stream_denial,
  stream_denial_inner, stream_denial_fields, journal_list, read_from_start,
}

abbrev client : JournalClient
client = record { auth_token = codes "token"; base_url = gateway }

-- {"journals":[{"modRevision":"7"}]}, in two chunks.
abbrev listed : Response
listed = respond (codes "{\"journals\":[{\"modRev") (codes "ision\":\"7\"}]}")

list_refused_example : list (always (refuse denial)) client new_selector new_selector [] ≡ (
  returned (
      new_err (record {
        body = some (obj denial_fields);
        response = refused (refuse denial);
        status = some (num (codes "16"));
      })),
  list_request (always (refuse denial)) client new_selector new_selector [] ∷ [],
)
unfolding body_json flatten lookup text_eq
list_refused_example =
    list_refused (always (refuse denial)) client new_selector new_selector [] (refuse denial)
      denial_fields refl refl refl

abbrev calls : List JournalCall
calls = call_collection (codes "a/b") ∷ call_name (codes "c") ∷ []

abbrev calls' : List JournalCall
calls' = call_name (codes "c") ∷ call_collection (codes "a/b") ∷ []

-- {"result":1} and a line break behind it, cut into two chunks.
abbrev first_part : Text
first_part = codes "{\"resu"

abbrev second_part : Text
second_part = codes "lt\":1}\n"

abbrev one_result : Fields
one_result = field (codes "result") (num (codes "1")) end

read_refused_example : read (always (refuse stream_denial)) client read_from_start [] ≡ (
  returned (
      new_err (record {
        body = some (obj stream_denial_inner);
        response = refused (refuse stream_denial);
        status = some (str (codes "Unauthorized"));
      })),
  read_request (always (refuse stream_denial)) client read_from_start [] ∷ [],
)
unfolding body_json flatten lookup text_eq
read_refused_example =
    read_refused (always (refuse stream_denial)) client read_from_start [] (refuse stream_denial)
      stream_denial_fields stream_denial_inner refl refl refl refl

read_refused_plainly_example :
    read (always (refuse denial)) client read_from_start []
    ≡ (thrown type_error, read_request (always (refuse denial)) client read_from_start [] ∷ [])
unfolding body_json flatten lookup text_eq
read_refused_plainly_example =
    read_refused_plainly (always (refuse denial)) client read_from_start [] (refuse denial)
      denial_fields refl refl refl refl

-- {"a": 1} in the contents of two messages, cut inside the document.
abbrev message_of : Text → Fields
message_of t = field (codes "content") (str (btoa t)) end

abbrev two_contents : List (Fields × List ℕ)
two_contents =
    (message_of (codes "{\"a\""), codes "{\"a\"") ∷ (message_of (codes ":1}\n"), codes ":1}\n") ∷ []

abbrev one_number : List Json
one_number = num (codes "1") ∷ []

abbrev one_document : List Json
one_document = obj (field (codes "a") (num (codes "1")) end) ∷ []

parse_journal_documents-printed_example :
    parse_journal_documents (record { chunks = message_values two_contents; ending = closed })
    ≡ record { chunks = one_document; ending = closed }
unfolding encode drop_mark to_units lookup text_eq stringify IsJson read_number
parse_journal_documents-printed_example =
    parse_journal_documents-printed one_document [] two_contents closed
      (((ground arith, refl, refl, tt), tt)) tt
      ((refl, (ground arith, refl)), ((refl, (ground arith, refl)), tt)) refl

abbrev some_journals : Selector
some_journals = journal_calls calls new_selector

list-Posts_example :
    (r : Request) × ((list offline client some_journals new_selector []).1 ≡ r ∷ [])
    × (r.url ≡ list_url client)
    × (r.method ≡ codes "POST")
    × Posts some_journals new_selector r.body
unfolding journal_calls new_selector push
list-Posts_example =
    list-Posts offline client some_journals new_selector []
      ((ground arith, (ground arith, tt)), ((ground arith, (ground arith, tt)), tt)) tt
      (ground arith) tt

read_posts_example :
    (r : Request) × ((read offline client read_from_start []).1 ≡ r ∷ [])
    × (r.url ≡ read_url client)
    × (r.method ≡ codes "POST")
    × (parse r.body ≡ some (encode_protocol_read_request read_from_start))
read_posts_example =
    read_posts offline client read_from_start [] (tt, ground arith, ground arith, tt, tt)

list-stringify_example : list (always listed) client new_selector new_selector [] ≡ (
  returned (new_ok (none ∷ [])),
  list_request (always listed) client new_selector new_selector [] ∷ [],
)
unfolding decode flatten encode_protocol_list_response opt encode_list lookup text_eq stringify
    IsJson
list-stringify_example =
    list-stringify (always listed) client [] new_selector new_selector 200
      (codes "{\"journals\":[{\"modRev" ∷ codes "ision\":\"7\"}]}" ∷ []) journal_list refl
      (ground arith, ((ground arith, ground arith, refl, tt), tt), refl, tt) refl

read-printed_example : read (always (respond first_part second_part)) client read_from_start [] ≡ (
  returned (new_ok (record { chunks = some (num (codes "1")) ∷ []; ending = closed })),
  read_request (always (respond first_part second_part)) client read_from_start [] ∷ [],
)
unfolding decode flatten stringify IsJson read_number
read-printed_example =
    read-printed (always (respond first_part second_part)) client [] read_from_start 200 one_number
      [] (first_part ∷ second_part ∷ []) closed refl (refl, tt) tt refl

-- A response whose body is no JSON, and one that is refused with a body that lacks `error`.
abbrev no_json : Response
no_json = respond (codes "{\"jour") (codes "nals\":")

list-IsRejection_example : IsRejection (resolved no_json) syntax_error
unfolding list do_fetch fetch settle new_ok new_err present ok unwrap body_json parsed flatten
    decode parse text_eq
list-IsRejection_example =
    list-IsRejection (always no_json) client [] new_selector new_selector syntax_error refl

read-IsRejection_example : IsRejection (resolved (refuse denial)) type_error
unfolding body_json flatten lookup text_eq
read-IsRejection_example =
    read-IsRejection (always (refuse denial)) client [] read_from_start type_error (
      ap (λ r. r.0)
        (read_refused_plainly (always (refuse denial)) client read_from_start [] (refuse denial)
          denial_fields refl refl refl refl))
