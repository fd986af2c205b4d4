-- ===== src/Gen/Broker/Fragment.antt =====
-- client/src/gen/broker/protocol/broker.ts: fragments of journals. A member that is left out is `none`.
use data_plane_gateway.Prelude.{List, Option}
use data_plane_gateway.Text.{Text, codes}
use data_plane_gateway.Json.{Json, Number, encode_list, num, obj, opt, str, Fields}
use data_plane_gateway.Gen.Broker.Status.{
  ProtocolCompressionCodec, ProtocolStatus, encode_protocol_compression_codec,
  encode_protocol_status,
}
use data_plane_gateway.Gen.Broker.Header.{ProtocolHeader, encode_protocol_header}

pub record ProtocolSha1Sum : Type 0 where
  pub part1 : Option Text
  pub part2 : Option Text
  pub part3 : Option Number

unfoldable pub encode_protocol_sha1_sum : ProtocolSha1Sum → Json
encode_protocol_sha1_sum m = obj (
    opt (codes "part1") str m.part1
      (opt (codes "part2") str m.part2 (opt (codes "part3") num m.part3 Fields.end)))

pub record ProtocolFragment : Type 0 where
  pub journal : Option Text
  pub begin : Option Text
  pub end : Option Text
  pub sum : Option ProtocolSha1Sum
  pub compression_codec : Option ProtocolCompressionCodec
  pub backing_store : Option Text
  pub mod_time : Option Text
  pub path_postfix : Option Text

unfoldable pub encode_protocol_fragment : ProtocolFragment → Json
unfolding encode_protocol_compression_codec encode_protocol_sha1_sum
encode_protocol_fragment m = obj (
    opt (codes "journal") str m.journal (
      opt (codes "begin") str m.begin (
        opt (codes "end") str m.end (
          opt (codes "sum") encode_protocol_sha1_sum m.sum (
            opt (codes "compressionCodec") encode_protocol_compression_codec m.compression_codec (
              opt (codes "backingStore") str m.backing_store (
                opt (codes "modTime") str m.mod_time
                  (opt (codes "pathPostfix") str m.path_postfix Fields.end))))))))

pub record FragmentsResponseFragment : Type 0 where
  pub spec : Option ProtocolFragment
  pub signed_url : Option Text

unfoldable pub encode_fragments_response_fragment : FragmentsResponseFragment → Json
unfolding encode_protocol_fragment
encode_fragments_response_fragment m = obj (
    opt (codes "spec") encode_protocol_fragment m.spec
      (opt (codes "signedUrl") str m.signed_url Fields.end))

pub record ProtocolFragmentsResponse : Type 0 where
  pub status : Option ProtocolStatus
  pub header : Option ProtocolHeader
  pub fragments : Option (List FragmentsResponseFragment)
  pub next_page_token : Option Text

unfoldable pub encode_protocol_fragments_response : ProtocolFragmentsResponse → Json
unfolding encode_fragments_response_fragment encode_protocol_header encode_protocol_status
encode_protocol_fragments_response m = obj (
    opt (codes "status") encode_protocol_status m.status (
      opt (codes "header") encode_protocol_header m.header (
        opt (codes "fragments") (encode_list encode_fragments_response_fragment) m.fragments
          (opt (codes "nextPageToken") str m.next_page_token Fields.end))))
