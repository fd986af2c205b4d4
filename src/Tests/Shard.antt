-- ===== src/Tests/Shard.antt =====
-- Runs of client/src/shard_client.ts.
use data_plane_gateway.Prelude.{◌≡◌, refl, none, [], ◌∷◌, flatten}
use data_plane_gateway.Text.{codes, text_eq}
use data_plane_gateway.Js.{returned}
use data_plane_gateway.Json.{opt, encode_list, lookup}
use data_plane_gateway.Result.{new_ok}
use data_plane_gateway.Util.Fetch.{Response}
use data_plane_gateway.Gen.Consumer.Shard.{encode_consumer_list_response}
use data_plane_gateway.Selector.{new_selector}
use data_plane_gateway.ShardClient.{ShardClient, list, stat}
use data_plane_gateway.ShardClient.Laws.{shard_request}
use data_plane_gateway.Prelude.{some, List, arith}
use data_plane_gateway.Text.{Text}
use data_plane_gateway.Json.Parse.{parse}
use data_plane_gateway.Util.Fetch.{Request}
use data_plane_gateway.Selector.Calls.{call_task, call_id, shard_calls}
use data_plane_gateway.Selector.Shard.{ShardSelector}
use data_plane_gateway.ShardClient.{stat_url}
use data_plane_gateway.ShardClient.Requests.{stat_json, stat_posts}
use data_plane_gateway.Utf8.{decode}
use data_plane_gateway.Json.Stringify.{stringify}
use data_plane_gateway.Json.RoundTrip.Values.{IsJson}
use data_plane_gateway.Prelude.{refl, flatten}
use data_plane_gateway.Text.{text_eq}
use data_plane_gateway.Json.{opt, encode_list, lookup}
use data_plane_gateway.ShardClient.Responses.{shard_list-stringify}
use data_plane_gateway.Tests.Data.{gateway, respond, always, shard_list}

abbrev client : ShardClient
client = record { auth_token = codes "token"; base_url = gateway }

abbrev listed : Response
listed = respond (codes "{\"shards\":[{\"modRev") (codes "ision\":\"7\"}]}")

abbrev stat_answer : Response
stat_answer = respond (codes "{\"extension\":") (codes "\"x\"}")

abbrev some_shards : ShardSelector
some_shards = shard_calls (call_task (codes "t") ∷ call_id (codes "i") ∷ []) new_selector

abbrev offsets : List (Text × Text)
offsets = (codes "j", codes "12") ∷ (codes "k", codes "0") ∷ []

stat_posts_example :
    (r : Request) × ((stat (always stat_answer) client (codes "s") offsets []).1 ≡ r ∷ [])
    × (r.url ≡ stat_url client)
    × (r.method ≡ codes "POST")
    × (parse r.body ≡ some (stat_json (codes "s") offsets))
unfolding lookup text_eq
stat_posts_example =
    stat_posts (always stat_answer) client [] (codes "s") offsets (ground arith)
      (ground arith, ground arith, refl, (ground arith, ground arith, refl, tt))

shard_list-stringify_example : list (always listed) client new_selector new_selector [] ≡ (
  returned (new_ok (record { spec = none; status = none } ∷ [])),
  shard_request (always listed) client new_selector new_selector [] ∷ [],
)
unfolding decode flatten encode_consumer_list_response opt encode_list lookup text_eq stringify
    IsJson
shard_list-stringify_example =
    shard_list-stringify (always listed) client [] new_selector new_selector 200
      (codes "{\"shards\":[{\"modRev" ∷ codes "ision\":\"7\"}]}" ∷ []) shard_list refl
      (ground arith, ((ground arith, ground arith, refl, tt), tt), refl, tt) refl
