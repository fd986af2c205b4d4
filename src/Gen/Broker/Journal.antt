-- ===== src/Gen/Broker/Journal.antt =====
-- client/src/gen/broker/protocol/broker.ts: journals, and listing and changing them. A member that is left out is `none`.
use data_plane_gateway.Prelude.{List, Option}
use data_plane_gateway.Text.{Text, codes}
use data_plane_gateway.Json.{Json, Number, encode_list, num, obj, opt, str, Fields}
use data_plane_gateway.Gen.Broker.Status.{
  ProtocolCompressionCodec, ProtocolStatus, encode_protocol_compression_codec,
  encode_protocol_status,
}
use data_plane_gateway.Gen.Broker.Header.{
  ProtocolHeader, ProtocolRoute, encode_protocol_header, encode_protocol_route,
}
use data_plane_gateway.Gen.Broker.Labels.{
  ProtocolLabelSelector, ProtocolLabelSet, encode_protocol_label_selector,
  encode_protocol_label_set,
}

pub record ProtocolJournalSpecFragment : Type 0 where
  pub length : Option Text
  pub compression_codec : Option ProtocolCompressionCodec
  pub stores : Option (List Text)
  pub refresh_interval : Option Text
  pub retention : Option Text
  pub flush_interval : Option Text
  pub path_postfix_template : Option Text

unfoldable pub encode_protocol_journal_spec_fragment : ProtocolJournalSpecFragment → Json
unfolding encode_protocol_compression_codec
encode_protocol_journal_spec_fragment m = obj (
    opt (codes "length") str m.length (
      opt (codes "compressionCodec") encode_protocol_compression_codec m.compression_codec (
        opt (codes "stores") (encode_list str) m.stores (
          opt (codes "refreshInterval") str m.refresh_interval (
            opt (codes "retention") str m.retention (
              opt (codes "flushInterval") str m.flush_interval
                (opt (codes "pathPostfixTemplate") str m.path_postfix_template Fields.end)))))))

pub record ProtocolJournalSpec : Type 0 where
  pub name : Option Text
  pub replication : Option Number
  pub labels : Option ProtocolLabelSet
  pub fragment : Option ProtocolJournalSpecFragment
  pub flags : Option Number
  pub max_append_rate : Option Text

unfoldable pub encode_protocol_journal_spec : ProtocolJournalSpec → Json
unfolding encode_protocol_journal_spec_fragment encode_protocol_label_set
encode_protocol_journal_spec m = obj (
    opt (codes "name") str m.name (
      opt (codes "replication") num m.replication (
        opt (codes "labels") encode_protocol_label_set m.labels (
          opt (codes "fragment") encode_protocol_journal_spec_fragment m.fragment (
            opt (codes "flags") num m.flags
              (opt (codes "maxAppendRate") str m.max_append_rate Fields.end))))))

pub record ListResponseJournal : Type 0 where
  pub spec : Option ProtocolJournalSpec
  pub mod_revision : Option Text
  pub route : Option ProtocolRoute

unfoldable pub encode_list_response_journal : ListResponseJournal → Json
unfolding encode_protocol_journal_spec encode_protocol_route
encode_list_response_journal m = obj (
    opt (codes "spec") encode_protocol_journal_spec m.spec (
      opt (codes "modRevision") str m.mod_revision
        (opt (codes "route") encode_protocol_route m.route Fields.end)))

pub record ProtocolListRequest : Type 0 where
  pub selector : Option ProtocolLabelSelector

unfoldable pub encode_protocol_list_request : ProtocolListRequest → Json
unfolding encode_protocol_label_selector
encode_protocol_list_request m =
    obj (opt (codes "selector") encode_protocol_label_selector m.selector Fields.end)

pub record ProtocolListResponse : Type 0 where
  pub status : Option ProtocolStatus
  pub header : Option ProtocolHeader
  pub journals : Option (List ListResponseJournal)

unfoldable pub encode_protocol_list_response : ProtocolListResponse → Json
unfolding encode_list_response_journal encode_protocol_header encode_protocol_status
encode_protocol_list_response m = obj (
    opt (codes "status") encode_protocol_status m.status (
      opt (codes "header") encode_protocol_header m.header
        (opt (codes "journals") (encode_list encode_list_response_journal) m.journals Fields.end)))

pub record ApplyRequestChange : Type 0 where
  pub expect_mod_revision : Option Text
  pub upsert : Option ProtocolJournalSpec
  pub delete : Option Text

unfoldable pub encode_apply_request_change : ApplyRequestChange → Json
unfolding encode_protocol_journal_spec
encode_apply_request_change m = obj (
    opt (codes "expectModRevision") str m.expect_mod_revision (
      opt (codes "upsert") encode_protocol_journal_spec m.upsert
        (opt (codes "delete") str m.delete Fields.end)))

pub record ProtocolApplyResponse : Type 0 where
  pub status : Option ProtocolStatus
  pub header : Option ProtocolHeader

unfoldable pub encode_protocol_apply_response : ProtocolApplyResponse → Json
unfolding encode_protocol_header encode_protocol_status
encode_protocol_apply_response m = obj (
    opt (codes "status") encode_protocol_status m.status
      (opt (codes "header") encode_protocol_header m.header Fields.end))
