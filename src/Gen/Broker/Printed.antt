-- ===== src/Gen/Broker/Printed.antt =====
-- The messages of client/src/gen/broker/protocol/broker.ts that the client sends, as they are
-- printed: strings hold code units of 16 bits, and numbers are literals of JSON.
use data_plane_gateway.Prelude.{◌≡◌, refl, true, Bool, Option, none, some, List, ◌∷◌, All}
use data_plane_gateway.Text.{Text, codes, text_eq}
use data_plane_gateway.Json.{str, num, bool, Fields, opt, encode_list}
use data_plane_gateway.Json.RoundTrip.Numbers.{IsNumber}
use data_plane_gateway.Json.RoundTrip.Values.{IsJson}
use data_plane_gateway.Json.RoundTrip.Encoded.{
  IsText16, is_text16, absent, Given, Fits, Fits-end, Fits-opt, encode_list-IsJson, str-IsJson,
  obj-IsJson, Fits-text,
}
use data_plane_gateway.Gen.Broker.Labels.{
  ProtocolLabel, encode_protocol_label, ProtocolLabelSet, encode_protocol_label_set,
  ProtocolLabelSelector, encode_protocol_label_selector,
}
use data_plane_gateway.Gen.Broker.Header.{
  HeaderEtcd, encode_header_etcd, ProcessSpecId, encode_process_spec_id, ProtocolRoute,
  encode_protocol_route, ProtocolHeader, encode_protocol_header,
}
use data_plane_gateway.Gen.Broker.Messages.{ProtocolReadRequest, encode_protocol_read_request}
use data_plane_gateway.Gen.Broker.Journal.{ProtocolListRequest, encode_protocol_list_request}

abbrev pub IsLabel16 : ProtocolLabel → Type 0
IsLabel16 m = Given IsText16 m.name × Given IsText16 m.value

pub encode_protocol_label-IsJson :
    (m : ProtocolLabel) → IsLabel16 m → IsJson (encode_protocol_label m)
unfolding encode_protocol_label text_eq
encode_protocol_label-IsJson m (n, v) = obj-IsJson _ (
    Fits-text (codes "name") m.name refl refl n
      (Fits-text (codes "value") m.value refl refl v Fits-end))

abbrev pub IsLabelSet16 : ProtocolLabelSet → Type 0
IsLabelSet16 m = Given (All IsLabel16) m.labels

encode_protocol_label_set-IsJson :
    (m : ProtocolLabelSet) → IsLabelSet16 m → IsJson (encode_protocol_label_set m)
unfolding encode_protocol_label_set text_eq
encode_protocol_label_set-IsJson m h = obj-IsJson _ (
    Fits-opt (All IsLabel16) (encode_list encode_protocol_label) (codes "labels") m.labels
      (encode_list-IsJson IsLabel16 encode_protocol_label encode_protocol_label-IsJson) refl refl h
      Fits-end)

abbrev pub IsLabelSelector16 : ProtocolLabelSelector → Type 0
IsLabelSelector16 m = Given IsLabelSet16 m.include × Given IsLabelSet16 m.exclude

encode_protocol_label_selector-IsJson :
    (m : ProtocolLabelSelector) → IsLabelSelector16 m → IsJson (encode_protocol_label_selector m)
unfolding encode_protocol_label_selector text_eq
encode_protocol_label_selector-IsJson m (i, e) = obj-IsJson _ (
    Fits-opt IsLabelSet16 encode_protocol_label_set (codes "include") m.include
      encode_protocol_label_set-IsJson refl refl i
      (Fits-opt IsLabelSet16 encode_protocol_label_set (codes "exclude") m.exclude
        encode_protocol_label_set-IsJson refl refl e Fits-end))

pub encode_protocol_list_request-IsJson :
    (m : ProtocolListRequest)
    → Given IsLabelSelector16 m.selector
    → IsJson (encode_protocol_list_request m)
unfolding encode_protocol_list_request
encode_protocol_list_request-IsJson m h = obj-IsJson _ (
    Fits-opt IsLabelSelector16 encode_protocol_label_selector (codes "selector") m.selector
      encode_protocol_label_selector-IsJson refl refl h Fits-end)

abbrev IsId16 : ProcessSpecId → Type 0
IsId16 m = Given IsText16 m.zone × Given IsText16 m.suffix

encode_process_spec_id-IsJson : (m : ProcessSpecId) → IsId16 m → IsJson (encode_process_spec_id m)
unfolding encode_process_spec_id text_eq
encode_process_spec_id-IsJson m (z, s) = obj-IsJson _ (
    Fits-text (codes "zone") m.zone refl refl z
      (Fits-text (codes "suffix") m.suffix refl refl s Fits-end))

abbrev IsEtcd16 : HeaderEtcd → Type 0
IsEtcd16 m =
    Given IsText16 m.cluster_id
    × Given IsText16 m.member_id
    × Given IsText16 m.revision
    × Given IsText16 m.raft_term

encode_header_etcd-IsJson : (m : HeaderEtcd) → IsEtcd16 m → IsJson (encode_header_etcd m)
unfolding encode_header_etcd text_eq
encode_header_etcd-IsJson m (c, i, r, t) = obj-IsJson _ (
    Fits-text (codes "clusterId") m.cluster_id refl refl c (
      Fits-text (codes "memberId") m.member_id refl refl i (
        Fits-text (codes "revision") m.revision refl refl r
          (Fits-text (codes "raftTerm") m.raft_term refl refl t Fits-end))))

abbrev IsRoute16 : ProtocolRoute → Type 0
IsRoute16 m =
    Given (All IsId16) m.members × Given IsNumber m.primary × Given (All IsText16) m.endpoints

encode_protocol_route-IsJson : (m : ProtocolRoute) → IsRoute16 m → IsJson (encode_protocol_route m)
unfolding encode_protocol_route text_eq
encode_protocol_route-IsJson m (i, p, e) = obj-IsJson _ (
    Fits-opt (All IsId16) (encode_list encode_process_spec_id) (codes "members") m.members
      (encode_list-IsJson IsId16 encode_process_spec_id encode_process_spec_id-IsJson) refl refl i
      (Fits-opt IsNumber num (codes "primary") m.primary (λ n h. unfold IsJson in h) refl refl p
        (Fits-opt (All IsText16) (encode_list str) (codes "endpoints") m.endpoints
          (encode_list-IsJson IsText16 str str-IsJson) refl refl e Fits-end)))

abbrev pub IsHeader16 : ProtocolHeader → Type 0
IsHeader16 m = Given IsId16 m.process_id × Given IsRoute16 m.route × Given IsEtcd16 m.etcd

encode_protocol_header-IsJson :
    (m : ProtocolHeader) → IsHeader16 m → IsJson (encode_protocol_header m)
unfolding encode_protocol_header text_eq
encode_protocol_header-IsJson m (i, r, e) = obj-IsJson _ (
    Fits-opt IsId16 encode_process_spec_id (codes "processId") m.process_id
      encode_process_spec_id-IsJson refl refl i
      (Fits-opt IsRoute16 encode_protocol_route (codes "route") m.route encode_protocol_route-IsJson
        refl refl r
        (Fits-opt IsEtcd16 encode_header_etcd (codes "etcd") m.etcd encode_header_etcd-IsJson refl
          refl e Fits-end)))

abbrev pub IsReadRequest16 : ProtocolReadRequest → Type 0
IsReadRequest16 m =
    Given IsHeader16 m.header
    × Given IsText16 m.journal
    × Given IsText16 m.offset
    × Given IsText16 m.end_offset
    × Given IsText16 m.begin_mod_time

Fits-bool :
    (k : Text) (o : Option Bool) {ks : List Text} {fs : Fields}
    → is_text16 k ≡ true
    → absent k ks ≡ true
    → Fits ks fs
    → Fits (k ∷ ks) (opt k bool o fs)
Fits-bool k o u h f = Fits-opt (λ b. Unit) bool k o (λ b i. unfold IsJson in tt) u h (any o) f
  where
    any : (o : Option Bool) → Given (λ b. Unit) o
    any none = tt
    any (some b) = tt

pub encode_protocol_read_request-IsJson :
    (m : ProtocolReadRequest) → IsReadRequest16 m → IsJson (encode_protocol_read_request m)
unfolding encode_protocol_read_request text_eq
encode_protocol_read_request-IsJson m (hd, j, o, e, t) = obj-IsJson _ (
    Fits-opt IsHeader16 encode_protocol_header (codes "header") m.header
      encode_protocol_header-IsJson refl refl hd
      (Fits-text (codes "journal") m.journal refl refl j (
        Fits-text (codes "offset") m.offset refl refl o (
          Fits-bool (codes "block") m.block refl refl (
            Fits-bool (codes "doNotProxy") m.do_not_proxy refl refl (
              Fits-bool (codes "metadataOnly") m.metadata_only refl refl (
                Fits-text (codes "endOffset") m.end_offset refl refl e
                  (Fits-text (codes "beginModTime") m.begin_mod_time refl refl t Fits-end))))))))
