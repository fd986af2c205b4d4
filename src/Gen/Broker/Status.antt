-- ===== src/Gen/Broker/Status.antt =====
-- client/src/gen/broker/protocol/broker.ts: the states of a response and the codecs of a fragment.
use data_plane_gateway.Text.{codes}
use data_plane_gateway.Json.{Json, str}

pub data ProtocolStatus : Type 0 where
  ok journal_not_found no_journal_primary_broker not_journal_primary_broker not_journal_broker
        insufficient_journal_brokers offset_not_yet_available wrong_route proposal_mismatch
        etcd_transaction_failed not_allowed wrong_append_offset index_has_greater_offset
        register_mismatch :
      ProtocolStatus

-- The name on the wire.
unfoldable pub encode_protocol_status : ProtocolStatus → Json
encode_protocol_status ProtocolStatus.ok = str (codes "OK")
encode_protocol_status ProtocolStatus.journal_not_found = str (codes "JOURNAL_NOT_FOUND")
encode_protocol_status ProtocolStatus.no_journal_primary_broker =
    str (codes "NO_JOURNAL_PRIMARY_BROKER")
encode_protocol_status ProtocolStatus.not_journal_primary_broker =
    str (codes "NOT_JOURNAL_PRIMARY_BROKER")
encode_protocol_status ProtocolStatus.not_journal_broker = str (codes "NOT_JOURNAL_BROKER")
encode_protocol_status ProtocolStatus.insufficient_journal_brokers =
    str (codes "INSUFFICIENT_JOURNAL_BROKERS")
encode_protocol_status ProtocolStatus.offset_not_yet_available =
    str (codes "OFFSET_NOT_YET_AVAILABLE")
encode_protocol_status ProtocolStatus.wrong_route = str (codes "WRONG_ROUTE")
encode_protocol_status ProtocolStatus.proposal_mismatch = str (codes "PROPOSAL_MISMATCH")
encode_protocol_status ProtocolStatus.etcd_transaction_failed =
    str (codes "ETCD_TRANSACTION_FAILED")
encode_protocol_status ProtocolStatus.not_allowed = str (codes "NOT_ALLOWED")
encode_protocol_status ProtocolStatus.wrong_append_offset = str (codes "WRONG_APPEND_OFFSET")
encode_protocol_status ProtocolStatus.index_has_greater_offset =
    str (codes "INDEX_HAS_GREATER_OFFSET")
encode_protocol_status ProtocolStatus.register_mismatch = str (codes "REGISTER_MISMATCH")

pub data ProtocolCompressionCodec : Type 0 where
  invalid none gzip zstandard snappy gzip_offload_decompression : ProtocolCompressionCodec

-- The name on the wire.
unfoldable pub encode_protocol_compression_codec : ProtocolCompressionCodec → Json
encode_protocol_compression_codec ProtocolCompressionCodec.invalid = str (codes "INVALID")
encode_protocol_compression_codec ProtocolCompressionCodec.none = str (codes "NONE")
encode_protocol_compression_codec ProtocolCompressionCodec.gzip = str (codes "GZIP")
encode_protocol_compression_codec ProtocolCompressionCodec.zstandard = str (codes "ZSTANDARD")
encode_protocol_compression_codec ProtocolCompressionCodec.snappy = str (codes "SNAPPY")
encode_protocol_compression_codec ProtocolCompressionCodec.gzip_offload_decompression =
    str (codes "GZIP_OFFLOAD_DECOMPRESSION")
