-- ===== src/Gen/Broker/Messages.antt =====
-- client/src/gen/broker/protocol/broker.ts: the messages that read and write a journal. A member that is left out is `none`.
use data_plane_gateway.Prelude.{Bool, Option}
use data_plane_gateway.Text.{Text, codes}
use data_plane_gateway.Json.{Json, bool, obj, opt, str, Fields}
use data_plane_gateway.Gen.Broker.Fragment.{ProtocolFragment, encode_protocol_fragment}
use data_plane_gateway.Gen.Broker.Header.{ProtocolHeader, encode_protocol_header}
use data_plane_gateway.Gen.Broker.Labels.{ProtocolLabelSet, encode_protocol_label_set}
use data_plane_gateway.Gen.Broker.Status.{ProtocolStatus, encode_protocol_status}

pub record ProtocolAppendResponse : Type 0 where
  pub status : Option ProtocolStatus
  pub header : Option ProtocolHeader
  pub commit : Option ProtocolFragment
  pub registers : Option ProtocolLabelSet
  pub total_chunks : Option Text
  pub delayed_chunks : Option Text

unfoldable pub encode_protocol_append_response : ProtocolAppendResponse → Json
unfolding encode_protocol_fragment encode_protocol_header encode_protocol_label_set
    encode_protocol_status
encode_protocol_append_response m = obj (
    opt (codes "status") encode_protocol_status m.status (
      opt (codes "header") encode_protocol_header m.header (
        opt (codes "commit") encode_protocol_fragment m.commit (
          opt (codes "registers") encode_protocol_label_set m.registers (
            opt (codes "totalChunks") str m.total_chunks
              (opt (codes "delayedChunks") str m.delayed_chunks Fields.end))))))

pub record ProtocolReadRequest : Type 0 where
  pub header : Option ProtocolHeader
  pub journal : Option Text
  pub offset : Option Text
  pub block : Option Bool
  pub do_not_proxy : Option Bool
  pub metadata_only : Option Bool
  pub end_offset : Option Text
  pub begin_mod_time : Option Text

unfoldable pub encode_protocol_read_request : ProtocolReadRequest → Json
unfolding encode_protocol_header
encode_protocol_read_request m = obj (
    opt (codes "header") encode_protocol_header m.header (
      opt (codes "journal") str m.journal (
        opt (codes "offset") str m.offset (
          opt (codes "block") bool m.block (
            opt (codes "doNotProxy") bool m.do_not_proxy (
              opt (codes "metadataOnly") bool m.metadata_only (
                opt (codes "endOffset") str m.end_offset
                  (opt (codes "beginModTime") str m.begin_mod_time Fields.end))))))))

pub record ProtocolReadResponse : Type 0 where
  pub status : Option ProtocolStatus
  pub header : Option ProtocolHeader
  pub offset : Option Text
  pub write_head : Option Text
  pub fragment : Option ProtocolFragment
  pub fragment_url : Option Text
  pub content : Option Text

unfoldable pub encode_protocol_read_response : ProtocolReadResponse → Json
unfolding encode_protocol_fragment encode_protocol_header encode_protocol_status
encode_protocol_read_response m = obj (
    opt (codes "status") encode_protocol_status m.status (
      opt (codes "header") encode_protocol_header m.header (
        opt (codes "offset") str m.offset (
          opt (codes "writeHead") str m.write_head (
            opt (codes "fragment") encode_protocol_fragment m.fragment (
              opt (codes "fragmentUrl") str m.fragment_url
                (opt (codes "content") str m.content Fields.end)))))))

pub record ProtocolReplicateResponse : Type 0 where
  pub status : Option ProtocolStatus
  pub header : Option ProtocolHeader
  pub fragment : Option ProtocolFragment
  pub registers : Option ProtocolLabelSet

unfoldable pub encode_protocol_replicate_response : ProtocolReplicateResponse → Json
unfolding encode_protocol_fragment encode_protocol_header encode_protocol_label_set
    encode_protocol_status
encode_protocol_replicate_response m = obj (
    opt (codes "status") encode_protocol_status m.status (
      opt (codes "header") encode_protocol_header m.header (
        opt (codes "fragment") encode_protocol_fragment m.fragment
          (opt (codes "registers") encode_protocol_label_set m.registers Fields.end))))
