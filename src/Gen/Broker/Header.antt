-- ===== src/Gen/Broker/Header.antt =====
-- client/src/gen/broker/protocol/broker.ts: the header of a message. A member that is left out is `none`.
use data_plane_gateway.Prelude.{List, Option}
use data_plane_gateway.Text.{Text, codes}
use data_plane_gateway.Json.{Json, Number, encode_list, num, obj, opt, str, Fields}

pub record HeaderEtcd : Type 0 where
  pub cluster_id : Option Text
  pub member_id : Option Text
  pub revision : Option Text
  pub raft_term : Option Text

unfoldable pub encode_header_etcd : HeaderEtcd → Json
encode_header_etcd m = obj (
    opt (codes "clusterId") str m.cluster_id (
      opt (codes "memberId") str m.member_id (
        opt (codes "revision") str m.revision (opt (codes "raftTerm") str m.raft_term Fields.end))))

pub record ProcessSpecId : Type 0 where
  pub zone : Option Text
  pub suffix : Option Text

unfoldable pub encode_process_spec_id : ProcessSpecId → Json
encode_process_spec_id m =
    obj (opt (codes "zone") str m.zone (opt (codes "suffix") str m.suffix Fields.end))

pub record ProtocolRoute : Type 0 where
  pub members : Option (List ProcessSpecId)
  pub primary : Option Number
  pub endpoints : Option (List Text)

unfoldable pub encode_protocol_route : ProtocolRoute → Json
unfolding encode_process_spec_id
encode_protocol_route m = obj (
    opt (codes "members") (encode_list encode_process_spec_id) m.members (
      opt (codes "primary") num m.primary
        (opt (codes "endpoints") (encode_list str) m.endpoints Fields.end)))

pub record ProtocolHeader : Type 0 where
  pub process_id : Option ProcessSpecId
  pub route : Option ProtocolRoute
  pub etcd : Option HeaderEtcd

unfoldable pub encode_protocol_header : ProtocolHeader → Json
unfolding encode_header_etcd encode_process_spec_id encode_protocol_route
encode_protocol_header m = obj (
    opt (codes "processId") encode_process_spec_id m.process_id (
      opt (codes "route") encode_protocol_route m.route
        (opt (codes "etcd") encode_header_etcd m.etcd Fields.end)))
