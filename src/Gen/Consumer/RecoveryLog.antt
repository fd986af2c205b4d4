-- ===== src/Gen/Consumer/RecoveryLog.antt =====
-- client/src/gen/consumer/protocol/consumer.ts: the hints of a recovery log. A member that is left out is `none`.
use data_plane_gateway.Prelude.{List, Option}
use data_plane_gateway.Text.{Text, codes}
use data_plane_gateway.Json.{Json, Number, encode_list, num, obj, opt, str, Fields}
use data_plane_gateway.Gen.Consumer.Status.{ConsumerStatus, encode_consumer_status}
use data_plane_gateway.Gen.Consumer.Header.{ProtocolHeader, encode_protocol_header}

pub record RecoverylogSegment : Type 0 where
  pub author : Option Number
  pub first_seq_no : Option Text
  pub first_offset : Option Text
  pub first_checksum : Option Number
  pub last_seq_no : Option Text
  pub last_offset : Option Text
  pub log : Option Text

unfoldable pub encode_recoverylog_segment : RecoverylogSegment → Json
encode_recoverylog_segment m = obj (
    opt (codes "author") num m.author (
      opt (codes "firstSeqNo") str m.first_seq_no (
        opt (codes "firstOffset") str m.first_offset (
          opt (codes "firstChecksum") num m.first_checksum (
            opt (codes "lastSeqNo") str m.last_seq_no (
              opt (codes "lastOffset") str m.last_offset
                (opt (codes "log") str m.log Fields.end)))))))

pub record RecoverylogFnodeSegments : Type 0 where
  pub fnode : Option Text
  pub segments : Option (List RecoverylogSegment)

unfoldable pub encode_recoverylog_fnode_segments : RecoverylogFnodeSegments → Json
unfolding encode_recoverylog_segment
encode_recoverylog_fnode_segments m = obj (
    opt (codes "fnode") str m.fnode
      (opt (codes "segments") (encode_list encode_recoverylog_segment) m.segments Fields.end))

pub record RecoverylogProperty : Type 0 where
  pub path : Option Text
  pub content : Option Text

unfoldable pub encode_recoverylog_property : RecoverylogProperty → Json
encode_recoverylog_property m =
    obj (opt (codes "path") str m.path (opt (codes "content") str m.content Fields.end))

pub record RecoverylogFsmHints : Type 0 where
  pub log : Option Text
  pub live_nodes : Option (List RecoverylogFnodeSegments)
  pub properties : Option (List RecoverylogProperty)

unfoldable pub encode_recoverylog_fsm_hints : RecoverylogFsmHints → Json
unfolding encode_recoverylog_fnode_segments encode_recoverylog_property
encode_recoverylog_fsm_hints m = obj (
    opt (codes "log") str m.log (
      opt (codes "liveNodes") (encode_list encode_recoverylog_fnode_segments) m.live_nodes (
        opt (codes "properties") (encode_list encode_recoverylog_property) m.properties
          Fields.end)))

pub record GetHintsResponseResponseHints : Type 0 where
  pub hints : Option RecoverylogFsmHints

unfoldable pub encode_get_hints_response_response_hints : GetHintsResponseResponseHints → Json
unfolding encode_recoverylog_fsm_hints
encode_get_hints_response_response_hints m =
    obj (opt (codes "hints") encode_recoverylog_fsm_hints m.hints Fields.end)

pub record ConsumerGetHintsResponse : Type 0 where
  pub status : Option ConsumerStatus
  pub header : Option ProtocolHeader
  pub primary_hints : Option GetHintsResponseResponseHints
  pub backup_hints : Option (List GetHintsResponseResponseHints)
  pub extension : Option Text

unfoldable pub encode_consumer_get_hints_response : ConsumerGetHintsResponse → Json
unfolding encode_consumer_status encode_get_hints_response_response_hints encode_protocol_header
encode_consumer_get_hints_response m = obj (
    opt (codes "status") encode_consumer_status m.status (
      opt (codes "header") encode_protocol_header m.header (
        opt (codes "primaryHints") encode_get_hints_response_response_hints m.primary_hints (
          opt (codes "backupHints") (encode_list encode_get_hints_response_response_hints)
            m.backup_hints (opt (codes "extension") str m.extension Fields.end)))))
