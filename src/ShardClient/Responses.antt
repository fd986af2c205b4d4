-- ===== src/ShardClient/Responses.antt =====
-- `list` of client/src/shard_client.ts, from the bytes of a response on.
use data_plane_gateway.Prelude.{ℕ, ◌≡◌, refl, List, [], ◌∷◌, ◌++◌, flatten}
use data_plane_gateway.Json.Stringify.{stringify}
use data_plane_gateway.Json.RoundTrip.Values.{IsJson}
use data_plane_gateway.Utf8.{decode}
use data_plane_gateway.Result.{new_ok}
use data_plane_gateway.Js.{returned}
use data_plane_gateway.Streams.{closed}
use data_plane_gateway.Text.{Text}
use data_plane_gateway.Util.Fetch.{Request, resolved, Network}
use data_plane_gateway.Util.Fetch.Laws.{body_json-printed}
use data_plane_gateway.Gen.Consumer.Shard.{ConsumerListResponse, encode_consumer_list_response}
use data_plane_gateway.Gen.Consumer.Messages.{ConsumerStatResponse, encode_consumer_stat_response}
use data_plane_gateway.Selector.Shard.{ShardSelector}
use data_plane_gateway.ShardClient.{ShardClient, list, stat}
use data_plane_gateway.JournalClient.Responses.{ok_response}
use data_plane_gateway.ShardClient.Laws.{
  shard_request, stat_request, shard_list_response, stat_response, answered_shards,
}

module _ (network : Network) (this : ShardClient) (sent : List Request) where
  -- If the answer is ok and the bytes of its body, wherever they are cut into chunks, are the UTF-8
  -- of a list response as JSON, then `list` sends one request and returns the spec and the status of
  -- each shard of that response, in its order; if the response has no shards, the promise is rejected
  -- with a `TypeError`. Numbers of the response are literals of JSON, and strings hold code units of
  -- 16 bits.
  pub shard_list-stringify :
      (include exclude : ShardSelector) (status : ℕ) (chunks : List (List ℕ))
      (m : ConsumerListResponse)
      → network sent (shard_request network this include exclude sent)
        ≡ resolved (ok_response status chunks closed)
      → IsJson (encode_consumer_list_response m)
      → decode (flatten chunks) ≡ stringify (encode_consumer_list_response m)
      → list network this include exclude sent
        ≡ (answered_shards m.shards, sent ++ shard_request network this include exclude sent ∷ [])
  shard_list-stringify include exclude status chunks m n h k =
      shard_list_response network this include exclude sent (ok_response status chunks closed) m n
        refl (body_json-printed chunks (encode_consumer_list_response m) h k)

  -- If the answer is ok and the bytes of its body, wherever they are cut into chunks, are the UTF-8
  -- of a stat response as JSON, then `stat` sends one request and returns that response. Numbers of
  -- the response are literals of JSON, strings hold code units of 16 bits, and maps repeat no key.
  pub stat-stringify :
      (shard : Text) (read_through : List (Text × Text)) (status : ℕ) (chunks : List (List ℕ))
      (m : ConsumerStatResponse)
      → network sent (stat_request network this shard read_through sent)
        ≡ resolved (ok_response status chunks closed)
      → IsJson (encode_consumer_stat_response m)
      → decode (flatten chunks) ≡ stringify (encode_consumer_stat_response m)
      → stat network this shard read_through sent ≡ (
        returned (new_ok (encode_consumer_stat_response m)),
        sent ++ stat_request network this shard read_through sent ∷ [],
      )
  stat-stringify shard read_through status chunks m n h k =
      stat_response network this shard read_through sent (ok_response status chunks closed)
        (encode_consumer_stat_response m) n refl
        (body_json-printed chunks (encode_consumer_stat_response m) h k)
