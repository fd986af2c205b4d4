-- ===== src/Gateway/Shards.antt =====
-- `ShardProxy` of shard_server.go, whose methods pass a request on.
use data_plane_gateway.Gateway.{Reply}

module _ {Context Request Response : Type 0} (with_dispatch_default : Context → Context) where
  unfoldable pub shard_list :
      (Context → Request → Reply Response) → Context → Request → Reply Response
  shard_list sc_list ctx req = sc_list (with_dispatch_default ctx) req

  unfoldable pub shard_stat :
      (Context → Request → Reply Response) → Context → Request → Reply Response
  shard_stat sc_stat ctx req = sc_stat (with_dispatch_default ctx) req

  unfoldable pub shard_apply :
      (Context → Request → Reply Response) → Context → Request → Reply Response
  shard_apply sc_apply ctx req = sc_apply (with_dispatch_default ctx) req

  unfoldable pub get_hints :
      (Context → Request → Reply Response) → Context → Request → Reply Response
  get_hints sc_get_hints ctx req = sc_get_hints (with_dispatch_default ctx) req

  unfoldable pub unassign :
      (Context → Request → Reply Response) → Context → Request → Reply Response
  unassign sc_unassign ctx req = sc_unassign (with_dispatch_default ctx) req
