-- ===== src/Gen/Consumer/Status.antt =====
-- client/src/gen/consumer/protocol/consumer.ts: the states of a response and of a replica.
use data_plane_gateway.Text.{codes}
use data_plane_gateway.Json.{Json, str}

pub data ConsumerStatus : Type 0 where
  ok shard_not_found no_shard_primary not_shard_primary etcd_transaction_failed shard_stopped :
      ConsumerStatus

-- The name on the wire.
unfoldable pub encode_consumer_status : ConsumerStatus → Json
encode_consumer_status ConsumerStatus.ok = str (codes "OK")
encode_consumer_status ConsumerStatus.shard_not_found = str (codes "SHARD_NOT_FOUND")
encode_consumer_status ConsumerStatus.no_shard_primary = str (codes "NO_SHARD_PRIMARY")
encode_consumer_status ConsumerStatus.not_shard_primary = str (codes "NOT_SHARD_PRIMARY")
encode_consumer_status ConsumerStatus.etcd_transaction_failed =
    str (codes "ETCD_TRANSACTION_FAILED")
encode_consumer_status ConsumerStatus.shard_stopped = str (codes "SHARD_STOPPED")

pub data ReplicaStatusCode : Type 0 where
  idle backfill standby primary failed : ReplicaStatusCode

-- The name on the wire.
unfoldable pub encode_replica_status_code : ReplicaStatusCode → Json
encode_replica_status_code ReplicaStatusCode.idle = str (codes "IDLE")
encode_replica_status_code ReplicaStatusCode.backfill = str (codes "BACKFILL")
encode_replica_status_code ReplicaStatusCode.standby = str (codes "STANDBY")
encode_replica_status_code ReplicaStatusCode.primary = str (codes "PRIMARY")
encode_replica_status_code ReplicaStatusCode.failed = str (codes "FAILED")
