-- ===== src/Gen/Broker/Labels.antt =====
-- client/src/gen/broker/protocol/broker.ts: labels and their selectors. A member that is left out is `none`.
use data_plane_gateway.Prelude.{List, Option}
use data_plane_gateway.Text.{Text, codes}
use data_plane_gateway.Json.{Json, encode_list, obj, opt, str, Fields}

pub record ProtocolLabel : Type 0 where
  pub name : Option Text
  pub value : Option Text

unfoldable pub encode_protocol_label : ProtocolLabel → Json
encode_protocol_label m =
    obj (opt (codes "name") str m.name (opt (codes "value") str m.value Fields.end))

pub record ProtocolLabelSet : Type 0 where
  pub labels : Option (List ProtocolLabel)

unfoldable pub encode_protocol_label_set : ProtocolLabelSet → Json
unfolding encode_protocol_label
encode_protocol_label_set m =
    obj (opt (codes "labels") (encode_list encode_protocol_label) m.labels Fields.end)

pub record ProtocolLabelSelector : Type 0 where
  pub include : Option ProtocolLabelSet
  pub exclude : Option ProtocolLabelSet

unfoldable pub encode_protocol_label_selector : ProtocolLabelSelector → Json
unfolding encode_protocol_label_set
encode_protocol_label_selector m = obj (
    opt (codes "include") encode_protocol_label_set m.include
      (opt (codes "exclude") encode_protocol_label_set m.exclude Fields.end))
