-- ===== src/Selector/Posted.antt =====
-- The label selectors of client/src/selector.ts, in the bodies of list requests.
use mathlib.Core.List.{Perm}
use data_plane_gateway.Prelude.{◌≡◌, refl, ap, ◌∙◌, some, List, All}
use data_plane_gateway.Text.{Text, codes}
use data_plane_gateway.Json.{Json, obj, field, end, encode_list, opt}
use data_plane_gateway.Json.Parse.{parse}
use data_plane_gateway.Json.Stringify.{stringify}
use data_plane_gateway.Json.RoundTrip.Values.{IsJson}
use data_plane_gateway.Json.RoundTrip.Whole.{parse-stringify}
use data_plane_gateway.Sort.{sort}
use data_plane_gateway.Sort.Laws.{sort-perm, sort-IsSorted, sort-All}
use data_plane_gateway.Gen.Broker.Labels.{
  ProtocolLabel, encode_protocol_label, encode_protocol_label_set, encode_protocol_label_selector,
}
use data_plane_gateway.Gen.Broker.Journal.{ProtocolListRequest, encode_protocol_list_request}
use data_plane_gateway.Gen.Broker.Printed.{IsLabel16, encode_protocol_list_request-IsJson}
use data_plane_gateway.Selector.{Selector, compare_labels, to_label_set}
use data_plane_gateway.Selector.Order.{IsComplete, compare_labels-IsConsistent}
use data_plane_gateway.Selector.Calls.{IsWellFormed}
use data_plane_gateway.Selector.Laws.{IsOrdered, IsOrdered-of_IsSorted}

-- { labels: [...] }
abbrev labels_json : List ProtocolLabel → Json
labels_json ls = obj (field (codes "labels") (encode_list encode_protocol_label ls) end)

-- { selector: { include: { labels: [...] }, exclude: { labels: [...] } } }
abbrev pub selector_json : List ProtocolLabel → List ProtocolLabel → Json
selector_json i e = obj (
    field (codes "selector")
      (obj (field (codes "include") (labels_json i) (field (codes "exclude") (labels_json e) end)))
      end)

-- A text from which the labels of both selectors are read, each as often, by name and by value.
abbrev pub Posts : Selector → Selector → Text → Type 0
Posts include exclude body =
    (i : List ProtocolLabel) × (e : List ProtocolLabel) × Perm i include.labels
    × IsOrdered i
    × Perm e exclude.labels
    × IsOrdered e
    × (parse body ≡ some (selector_json i e))

-- Labels whose strings hold code units of 16 bits.
abbrev pub AreLabels16 : Selector → Type 0
AreLabels16 s = All IsLabel16 s.labels

abbrev request_of : Selector → Selector → ProtocolListRequest
request_of include exclude = record {
  selector =
      some
        (record { include = some (to_label_set include); exclude = some (to_label_set exclude) });
}

request_lem :
    (include exclude : Selector)
    → encode_protocol_list_request (request_of include exclude)
      ≡ selector_json (sort compare_labels include.labels) (sort compare_labels exclude.labels)
unfolding encode_protocol_list_request encode_protocol_label_selector encode_protocol_label_set
    to_label_set opt
request_lem include exclude = refl

pub Posts_lem :
    (include exclude : Selector)
    → IsWellFormed include
    → IsWellFormed exclude
    → AreLabels16 include
    → AreLabels16 exclude
    → Posts include exclude (stringify (encode_protocol_list_request (request_of include exclude)))
Posts_lem include exclude wi we ui ue = (
  sort compare_labels include.labels,
  sort compare_labels exclude.labels,
  sort-perm compare_labels include.labels,
  ordered include wi,
  sort-perm compare_labels exclude.labels,
  ordered exclude we,
  parse-stringify (encode_protocol_list_request (request_of include exclude)) printable
      ∙ ap some (request_lem include exclude),
)
  where
    ordered : (s : Selector) → IsWellFormed s → IsOrdered (sort compare_labels s.labels)
    ordered s h =
        IsOrdered-of_IsSorted _ (sort-All IsComplete compare_labels s.labels h)
          (sort-IsSorted compare_labels-IsConsistent s.labels h)

    printable : IsJson (encode_protocol_list_request (request_of include exclude))
    printable = encode_protocol_list_request-IsJson (request_of include exclude) (
        unfold to_label_set in
        (
          sort-All IsLabel16 compare_labels include.labels ui,
          sort-All IsLabel16 compare_labels exclude.labels ue,
        ))
