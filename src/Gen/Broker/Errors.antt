-- ===== src/Gen/Broker/Errors.antt =====
-- client/src/gen/broker/protocol/broker.ts: the errors of the REST gateway. A member that is left out is `none`.
use data_plane_gateway.Prelude.{List, Option}
use data_plane_gateway.Text.{Text, codes}
use data_plane_gateway.Json.{Json, Number, encode_list, num, obj, opt, str, Fields}

pub record ProtobufAny : Type 0 where
  pub type_url : Option Text
  pub value : Option Text

unfoldable pub encode_protobuf_any : ProtobufAny → Json
encode_protobuf_any m =
    obj (opt (codes "typeUrl") str m.type_url (opt (codes "value") str m.value Fields.end))

pub record RuntimeError : Type 0 where
  pub error : Option Text
  pub code : Option Number
  pub message : Option Text
  pub details : Option (List ProtobufAny)

unfoldable pub encode_runtime_error : RuntimeError → Json
unfolding encode_protobuf_any
encode_runtime_error m = obj (
    opt (codes "error") str m.error (
      opt (codes "code") num m.code (
        opt (codes "message") str m.message
          (opt (codes "details") (encode_list encode_protobuf_any) m.details Fields.end))))

pub record RuntimeStreamError : Type 0 where
  pub grpc_code : Option Number
  pub http_code : Option Number
  pub message : Option Text
  pub http_status : Option Text
  pub details : Option (List ProtobufAny)

unfoldable pub encode_runtime_stream_error : RuntimeStreamError → Json
unfolding encode_protobuf_any
encode_runtime_stream_error m = obj (
    opt (codes "grpcCode") num m.grpc_code (
      opt (codes "httpCode") num m.http_code (
        opt (codes "message") str m.message (
          opt (codes "httpStatus") str m.http_status
            (opt (codes "details") (encode_list encode_protobuf_any) m.details Fields.end)))))
