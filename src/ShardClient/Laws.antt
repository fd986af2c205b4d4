-- ===== src/ShardClient/Laws.antt =====
-- What the methods of client/src/shard_client.ts send and return.
use data_plane_gateway.Prelude.{
  ◌≡◌, refl, ap, ◌∙◌, true, false, Option, none, some, List, [], ◌∷◌, ◌++◌, map, Option-cases, inl,
  inr,
}
use data_plane_gateway.Text.{Text, codes, text_eq}
use data_plane_gateway.Js.{Outcome, returned, thrown, Thrown, type_error}
use mathlib.Core.Option
use data_plane_gateway.Json.Members.{lookup-opt_self, lookup-opt_other, map_array-encode_list}
use data_plane_gateway.Json.{Json, obj, Fields, lookup, member, map_array, encode_list}
use data_plane_gateway.Gen.Consumer.Shard.{
  ListResponseShard, encode_list_response_shard, encode_consumer_shard_spec,
  encode_consumer_replica_status, ConsumerListResponse, encode_consumer_list_response,
}
use data_plane_gateway.Result
use data_plane_gateway.Result.{Result, new_ok, new_err, present}
use data_plane_gateway.Util.Fetch.{
  Request, Response, resolved, rejected, Network, refused, response_value, failure_value, fetch,
  post, settle, do_fetch, body_json, failure_json, ResponseError,
}
use data_plane_gateway.Util.Fetch.Laws.{settle-refused, from_response_lem, from_response-raised}
use data_plane_gateway.Selector.Shard.{ShardSelector}
use data_plane_gateway.ShardClient.{
  Shard, ShardClient, list_url, stat_url, list_body, stat_body, list, stat, shards, to_shard,
}

-- The spec and the replica statuses of a shard of a response, as JSON.
abbrev pub listed_shard : ListResponseShard → Shard
listed_shard s = record {
  spec = Option.map encode_consumer_shard_spec s.spec;
  status = Option.map (encode_list encode_consumer_replica_status) s.status;
}

shard_spec_lem :
    (s : ListResponseShard)
    → member (encode_list_response_shard s) (codes "spec")
      ≡ returned (Option.map encode_consumer_shard_spec s.spec)
unfolding member encode_list_response_shard text_eq
shard_spec_lem s = ap returned (
    lookup-opt_self _ _ s.spec _ (
      lookup-opt_other _ _ _ s.mod_revision _ refl
      ∙ lookup-opt_other _ _ _ s.route _ refl
      ∙ lookup-opt_other _ _ _ s.status Fields.end refl
      ∙ unfold lookup in refl))

shard_status_lem :
    (s : ListResponseShard)
    → member (encode_list_response_shard s) (codes "status")
      ≡ returned (Option.map (encode_list encode_consumer_replica_status) s.status)
unfolding member encode_list_response_shard text_eq
shard_status_lem s = ap returned (
    lookup-opt_other _ _ _ s.spec _ refl
    ∙ lookup-opt_other _ _ _ s.mod_revision _ refl
    ∙ lookup-opt_other _ _ _ s.route _ refl
    ∙ lookup-opt_self _ _ s.status Fields.end (unfold lookup in refl))

to_shard_lem :
    (s : ListResponseShard) → to_shard (encode_list_response_shard s) ≡ returned (listed_shard s)
to_shard_lem s = unfold to_shard in rw (shard_spec_lem s, to_shard, shard_status_lem s)

shards_lem :
    (m : ConsumerListResponse)
    → member (encode_consumer_list_response m) (codes "shards")
      ≡ returned (Option.map (encode_list encode_list_response_shard) m.shards)
unfolding member encode_consumer_list_response text_eq
shards_lem m = ap returned (
    lookup-opt_other _ _ _ m.status _ refl
    ∙ lookup-opt_other _ _ _ m.header _ refl
    ∙ lookup-opt_self _ _ m.shards _
        (lookup-opt_other _ _ _ m.extension Fields.end refl ∙ unfold lookup in refl))

-- What `list` makes of the shards of a response: each with its spec and its status, or the
-- `TypeError` of reading `map` of `undefined`.
abbrev pub answered_shards :
    Option (List ListResponseShard) → Outcome (Result (List Shard) ResponseError)
answered_shards none = thrown type_error
answered_shards (some ss) = returned (new_ok (map listed_shard ss))

some_shards_lem :
    (m : ConsumerListResponse) (ss : List ListResponseShard) (sent : List Request)
    → m.shards ≡ some ss
    → shards (encode_consumer_list_response m) sent ≡ (returned (map listed_shard ss), sent)
some_shards_lem m ss sent e =
    unfold shards in
    rw (
      shards_lem m,
      e,
      map_array-encode_list to_shard encode_list_response_shard listed_shard ss to_shard_lem,
    )

no_shards_lem :
    (m : ConsumerListResponse) (sent : List Request)
    → m.shards ≡ none
    → shards (encode_consumer_list_response m) sent ≡ (thrown type_error, sent)
no_shards_lem m sent e = unfold shards map_array in rw (shards_lem m, e)

-- The error of a refused unary call whose body is an object.
abbrev pub refusal : Response → Fields → ResponseError
refusal r fields = record {
  body = some (obj fields);
  response = refused r;
  status = lookup (codes "code") fields;
}

module _ (network : Network) (this : ShardClient) (include exclude : ShardSelector)
    (sent : List Request) where
  -- The request of `list`.
  abbrev pub shard_request : Request
  shard_request = post (list_url this) this.auth_token (list_body include exclude)

  -- If the answer is a response that is ok and whose body is a list response, `list` sends one
  -- request and returns the spec and the status of each shard of that response, in its order. If
  -- the response has no shards, the promise is rejected with a `TypeError`.
  pub shard_list_response :
      (r : Response) (m : ConsumerListResponse)
      → network sent shard_request ≡ resolved r
      → r.ok ≡ true
      → body_json r.body ≡ returned (encode_consumer_list_response m)
      → list network this include exclude sent
        ≡ (answered_shards m.shards, sent ++ shard_request ∷ [])
  shard_list_response r m e h b = elim (Option-cases m.shards) [
    | inl k ↦
        unfold list do_fetch fetch settle Result.ok Result.unwrap new_ok present in
        rw (e, h, b, no_shards_lem m (sent ++ shard_request ∷ []) k, k)
    | inr (ss, k) ↦
        unfold list do_fetch fetch settle Result.ok Result.unwrap new_ok present in
        rw (e, h, b, some_shards_lem m ss (sent ++ shard_request ∷ []) k, k)
  ]

  -- If the answer is a response that is not ok and whose body is a JSON object, `list` sends one
  -- request and returns an error with that object as its body and its `code` as its status.
  pub shard_list_refused :
      (r : Response) (fields : Fields)
      → network sent shard_request ≡ resolved r
      → r.ok ≡ false
      → body_json r.body ≡ returned (obj fields)
      → list network this include exclude sent
        ≡ (returned (new_err (refusal r fields)), sent ++ shard_request ∷ [])
  shard_list_refused r fields e h b =
      unfold list do_fetch fetch Result.ok Result.unwrap_err new_err present in
      rw (
        e,
        settle-refused r h,
        from_response_lem (refused r) fields (sent ++ shard_request ∷ [])
            (unfold failure_json in b),
      )

module _ (network : Network) (this : ShardClient) (shard : Text) (read_through : List (Text × Text))
    (sent : List Request) where
  -- The request of `stat`.
  abbrev pub stat_request : Request
  stat_request = post (stat_url this) this.auth_token (stat_body shard read_through)

  -- If the answer is a response that is ok and whose body is JSON, `stat` sends one request and
  -- returns that JSON as it is.
  pub stat_response :
      (r : Response) (v : Json)
      → network sent stat_request ≡ resolved r
      → r.ok ≡ true
      → body_json r.body ≡ returned v
      → stat network this shard read_through sent ≡ (returned (new_ok v), sent ++ stat_request ∷ [])
  stat_response r v e h b =
      unfold stat do_fetch fetch settle Result.ok Result.unwrap new_ok present in rw (e, h, b)

  -- If the answer is a response that is not ok and whose body is a JSON object, `stat` sends one
  -- request and returns an error with that object as its body and its `code` as its status.
  pub stat_refused :
      (r : Response) (fields : Fields)
      → network sent stat_request ≡ resolved r
      → r.ok ≡ false
      → body_json r.body ≡ returned (obj fields)
      → stat network this shard read_through sent
        ≡ (returned (new_err (refusal r fields)), sent ++ stat_request ∷ [])
  stat_refused r fields e h b =
      unfold stat do_fetch fetch Result.ok Result.unwrap_err new_err present in
      rw (
        e,
        settle-refused r h,
        from_response_lem (refused r) fields (sent ++ stat_request ∷ []) (unfold failure_json in b),
      )

  -- If `fetch` throws, `stat` returns no error: its promise is rejected with a `TypeError`, since
  -- what was thrown is taken for a response.
  pub stat_raised :
      (x : Thrown)
      → network sent stat_request ≡ rejected x
      → stat network this shard read_through sent ≡ (thrown type_error, sent ++ stat_request ∷ [])
  stat_raised x e =
      unfold stat do_fetch fetch settle Result.ok Result.unwrap_err new_ok new_err present in
      rw (e, from_response-raised x (sent ++ stat_request ∷ []))
