-- ===== src/Gen/Consumer/Shard.antt =====
-- client/src/gen/consumer/protocol/consumer.ts: shards, and listing and changing them. A member that is left out is `none`.
use data_plane_gateway.Prelude.{Bool, List, Option}
use data_plane_gateway.Text.{Text, codes}
use data_plane_gateway.Json.{Json, Number, bool, encode_list, num, obj, opt, str, Fields}
use data_plane_gateway.Gen.Consumer.Status.{
  ConsumerStatus, ReplicaStatusCode, encode_consumer_status, encode_replica_status_code,
}
use data_plane_gateway.Gen.Consumer.Header.{
  ProtocolHeader, ProtocolRoute, encode_protocol_header, encode_protocol_route,
}
use data_plane_gateway.Gen.Consumer.Labels.{
  ProtocolLabelSelector, ProtocolLabelSet, encode_protocol_label_selector,
  encode_protocol_label_set,
}

pub record ConsumerShardSpecSource : Type 0 where
  pub journal : Option Text
  pub min_offset : Option Text

unfoldable pub encode_consumer_shard_spec_source : ConsumerShardSpecSource → Json
encode_consumer_shard_spec_source m =
    obj (opt (codes "journal") str m.journal (opt (codes "minOffset") str m.min_offset Fields.end))

pub record ConsumerShardSpec : Type 0 where
  pub id : Option Text
  pub sources : Option (List ConsumerShardSpecSource)
  pub recovery_log_prefix : Option Text
  pub hint_prefix : Option Text
  pub hint_backups : Option Number
  pub max_txn_duration : Option Text
  pub min_txn_duration : Option Text
  pub disable : Option Bool
  pub hot_standbys : Option Number
  pub labels : Option ProtocolLabelSet
  pub disable_wait_for_ack : Option Bool
  pub ring_buffer_size : Option Number
  pub read_channel_size : Option Number

unfoldable pub encode_consumer_shard_spec : ConsumerShardSpec → Json
unfolding encode_consumer_shard_spec_source encode_protocol_label_set
encode_consumer_shard_spec m = obj (
    opt (codes "id") str m.id (
      opt (codes "sources") (encode_list encode_consumer_shard_spec_source) m.sources (
        opt (codes "recoveryLogPrefix") str m.recovery_log_prefix (
          opt (codes "hintPrefix") str m.hint_prefix (
            opt (codes "hintBackups") num m.hint_backups (
              opt (codes "maxTxnDuration") str m.max_txn_duration (
                opt (codes "minTxnDuration") str m.min_txn_duration (
                  opt (codes "disable") bool m.disable (
                    opt (codes "hotStandbys") num m.hot_standbys (
                      opt (codes "labels") encode_protocol_label_set m.labels (
                        opt (codes "disableWaitForAck") bool m.disable_wait_for_ack (
                          opt (codes "ringBufferSize") num m.ring_buffer_size (
                            opt (codes "readChannelSize") num m.read_channel_size
                              Fields.end)))))))))))))

pub record ConsumerReplicaStatus : Type 0 where
  pub code : Option ReplicaStatusCode
  pub errors : Option (List Text)

unfoldable pub encode_consumer_replica_status : ConsumerReplicaStatus → Json
unfolding encode_replica_status_code
encode_consumer_replica_status m = obj (
    opt (codes "code") encode_replica_status_code m.code
      (opt (codes "errors") (encode_list str) m.errors Fields.end))

pub record ListResponseShard : Type 0 where
  pub spec : Option ConsumerShardSpec
  pub mod_revision : Option Text
  pub route : Option ProtocolRoute
  pub status : Option (List ConsumerReplicaStatus)

unfoldable pub encode_list_response_shard : ListResponseShard → Json
unfolding encode_consumer_replica_status encode_consumer_shard_spec encode_protocol_route
encode_list_response_shard m = obj (
    opt (codes "spec") encode_consumer_shard_spec m.spec (
      opt (codes "modRevision") str m.mod_revision (
        opt (codes "route") encode_protocol_route m.route
          (opt (codes "status") (encode_list encode_consumer_replica_status) m.status Fields.end))))

pub record ConsumerListRequest : Type 0 where
  pub selector : Option ProtocolLabelSelector
  pub extension : Option Text

unfoldable pub encode_consumer_list_request : ConsumerListRequest → Json
unfolding encode_protocol_label_selector
encode_consumer_list_request m = obj (
    opt (codes "selector") encode_protocol_label_selector m.selector
      (opt (codes "extension") str m.extension Fields.end))

pub record ConsumerListResponse : Type 0 where
  pub status : Option ConsumerStatus
  pub header : Option ProtocolHeader
  pub shards : Option (List ListResponseShard)
  pub extension : Option Text

unfoldable pub encode_consumer_list_response : ConsumerListResponse → Json
unfolding encode_consumer_status encode_list_response_shard encode_protocol_header
encode_consumer_list_response m = obj (
    opt (codes "status") encode_consumer_status m.status (
      opt (codes "header") encode_protocol_header m.header (
        opt (codes "shards") (encode_list encode_list_response_shard) m.shards
          (opt (codes "extension") str m.extension Fields.end))))

pub record ConsumerApplyRequestChange : Type 0 where
  pub expect_mod_revision : Option Text
  pub upsert : Option ConsumerShardSpec
  pub delete : Option Text

unfoldable pub encode_consumer_apply_request_change : ConsumerApplyRequestChange → Json
unfolding encode_consumer_shard_spec
encode_consumer_apply_request_change m = obj (
    opt (codes "expectModRevision") str m.expect_mod_revision (
      opt (codes "upsert") encode_consumer_shard_spec m.upsert
        (opt (codes "delete") str m.delete Fields.end)))

pub record ConsumerApplyResponse : Type 0 where
  pub status : Option ConsumerStatus
  pub header : Option ProtocolHeader
  pub extension : Option Text

unfoldable pub encode_consumer_apply_response : ConsumerApplyResponse → Json
unfolding encode_consumer_status encode_protocol_header
encode_consumer_apply_response m = obj (
    opt (codes "status") encode_consumer_status m.status (
      opt (codes "header") encode_protocol_header m.header
        (opt (codes "extension") str m.extension Fields.end)))
