-- ===== src/ShardClient.antt =====
-- client/src/shard_client.ts: the class `ShardClient`.
pub mod Laws
pub mod Requests
pub mod Responses
pub mod Rejections
use data_plane_gateway.Prelude.{
  Bool, true, false, Option, none, some, List, [], ◌∷◌, ◌++◌, if◌then◌else◌,
}
use data_plane_gateway.Text.{Text, codes}
use data_plane_gateway.Js.{Outcome, returned, thrown, array_value, Value}
use data_plane_gateway.Js
use data_plane_gateway.Json.{Json, member, map_array}
use data_plane_gateway.Result
use data_plane_gateway.Result.{Result, new_ok, new_err}
use data_plane_gateway.Util.TrimUrl.{Url, to_text}
use data_plane_gateway.Util.Fetch.{
  Network, Action, ◌>>=◌, lift, Response, Failure, response_value, failure_value, do_fetch,
  body_json, ResponseError, from_response,
}
use data_plane_gateway.Gen.Broker.Labels.{ProtocolLabelSelector}
use data_plane_gateway.Gen.Consumer.Messages.{ConsumerStatRequest, encode_consumer_stat_request}
use data_plane_gateway.Selector.{to_label_set}
use data_plane_gateway.Selector.Shard.{ShardSelector}
use data_plane_gateway.Gen.Broker.Journal.{ProtocolListRequest, encode_protocol_list_request}

-- The interface `Shard`. `spec!` and `status!` are not checked.
pub record Shard : Type 0 where
  pub spec : Option Json
  pub status : Option Json

pub record ShardClient : Type 0 where
  pub auth_token : Text
  pub base_url : Url

-- `${this.baseUrl.toString()}v1/shards/list`
unfoldable pub list_url : ShardClient → Text
list_url this = to_text this.base_url ++ codes "v1/shards/list"

unfoldable pub stat_url : ShardClient → Text
stat_url this = to_text this.base_url ++ codes "v1/shards/stat"

-- { selector: { include, exclude } }
unfoldable pub list_body : ShardSelector → ShardSelector → Json
list_body include exclude = encode_protocol_list_request (record {
  selector =
      some
        (record { include = some (to_label_set include); exclude = some (to_label_set exclude) });
})

-- (s) => { return { spec: s.spec!, status: s.status! } }
unfoldable pub to_shard : Json → Outcome Shard
to_shard s = elim (member s (codes "spec")) [
  | thrown e ↦ thrown e
  | returned spec ↦ elim (member s (codes "status")) [
    | thrown e ↦ thrown e
    | returned status ↦ returned (record { spec = spec; status = status })
  ]
]

-- data.shards!.map(...)
unfoldable pub shards : Json → Action (List Shard)
shards listed = do found ← lift (member listed (codes "shards")); lift (map_array to_shard found)

-- { shard, readThrough }
unfoldable pub stat_body : Text → List (Text × Text) → Json
unfolding encode_consumer_stat_request
stat_body shard read_through = encode_consumer_stat_request (record {
  header = none;
  shard = some shard;
  read_through = some read_through;
  extension = none;
})

module _ (network : Network) where
  unfoldable pub list :
      ShardClient → ShardSelector → ShardSelector → Action (Result (List Shard) ResponseError)
  list this include exclude = do
    result ← do_fetch network (list_url this) this.auth_token (list_body include exclude)
    if Result.ok result
        then (do
          response ← lift (Result.unwrap result)
          listed ← lift (body_json response.body)
          found ← shards listed
          lift (returned (new_ok found)))
        else (do
          failure ← lift (Result.unwrap_err result)
          error ← from_response failure
          lift (returned (new_err error)))

  unfoldable pub stat : ShardClient → Text → List (Text × Text) → Action (Result Json ResponseError)
  stat this shard read_through = do
    result ← do_fetch network (stat_url this) this.auth_token (stat_body shard read_through)
    if Result.ok result
        then (do
          response ← lift (Result.unwrap result)
          found ← lift (body_json response.body)
          lift (returned (new_ok found)))
        else (do
          failure ← lift (Result.unwrap_err result)
          error ← from_response failure
          lift (returned (new_err error)))
