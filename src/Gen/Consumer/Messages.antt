-- ===== src/Gen/Consumer/Messages.antt =====
-- client/src/gen/consumer/protocol/consumer.ts: the messages about the state of a shard. A member that is left out is `none`.
use data_plane_gateway.Prelude.{List, Option}
use data_plane_gateway.Text.{Text, codes}
use data_plane_gateway.Json.{Json, encode_list, encode_texts, obj, opt, str, Fields}
use data_plane_gateway.Gen.Consumer.Status.{ConsumerStatus, encode_consumer_status}
use data_plane_gateway.Gen.Consumer.Header.{ProtocolHeader, encode_protocol_header}

pub record ConsumerStatRequest : Type 0 where
  pub header : Option ProtocolHeader
  pub shard : Option Text
  pub read_through : Option (List (Text × Text))
  pub extension : Option Text

unfoldable pub encode_consumer_stat_request : ConsumerStatRequest → Json
unfolding encode_protocol_header
encode_consumer_stat_request m = obj (
    opt (codes "header") encode_protocol_header m.header (
      opt (codes "shard") str m.shard (
        opt (codes "readThrough") encode_texts m.read_through
          (opt (codes "extension") str m.extension Fields.end))))

pub record ConsumerStatResponse : Type 0 where
  pub status : Option ConsumerStatus
  pub header : Option ProtocolHeader
  pub read_through : Option (List (Text × Text))
  pub publish_at : Option (List (Text × Text))
  pub extension : Option Text

unfoldable pub encode_consumer_stat_response : ConsumerStatResponse → Json
unfolding encode_consumer_status encode_protocol_header
encode_consumer_stat_response m = obj (
    opt (codes "status") encode_consumer_status m.status (
      opt (codes "header") encode_protocol_header m.header (
        opt (codes "readThrough") encode_texts m.read_through (
          opt (codes "publishAt") encode_texts m.publish_at
            (opt (codes "extension") str m.extension Fields.end)))))

pub record ConsumerUnassignResponse : Type 0 where
  pub status : Option ConsumerStatus
  pub shards : Option (List Text)

unfoldable pub encode_consumer_unassign_response : ConsumerUnassignResponse → Json
unfolding encode_consumer_status
encode_consumer_unassign_response m = obj (
    opt (codes "status") encode_consumer_status m.status
      (opt (codes "shards") (encode_list str) m.shards Fields.end))
