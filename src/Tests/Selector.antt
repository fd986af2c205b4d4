-- ===== src/Tests/Selector.antt =====
-- Runs of client/src/selector.ts and of the functions of client/src/util.ts that have no effects.
use mathlib.Core.List.{Perm}
use mathlib.Core.List.Perm
use data_plane_gateway.Prelude.{◌≡◌, some, List, [], ◌∷◌, arith}
use data_plane_gateway.Prelude.Int.{neg}
use data_plane_gateway.Text.{Text, codes, text_lt}
use data_plane_gateway.Text.Order.{text_lt_irrefl, text_lt_trans, text_lt_connected}
use data_plane_gateway.Util.SortBy.{sort_by}
use data_plane_gateway.Util.SortBy.Laws.{IsStrictOrder, sort_by-neg}
use data_plane_gateway.Gen.Broker.Labels.{ProtocolLabel}
use data_plane_gateway.Selector.{Selector, new_selector, to_label_set}
use data_plane_gateway.Selector.Calls.{
  call_collection, call_name, journal_calls, new_selector-IsWellFormed,
}
use mathlib.Mathlib.Data.Multiset.ZeroCons.{zero, cons}
use data_plane_gateway.Prelude.{◌↔◌}
use data_plane_gateway.Selector.{push}
use data_plane_gateway.Selector.Bag.{bag_of, to_label_set-bag_of}
use data_plane_gateway.Selector.Laws.{IsOrdered, to_label_set-journal_calls, to_label_set-IsOrdered}

abbrev label : Text → Text → ProtocolLabel
label n v = record { name = some n; value = some v }

abbrev two_labels : Selector
two_labels = record {
  labels = label (codes "name") (codes "b") ∷ label (codes "name") (codes "a") ∷ [];
}

to_label_set-IsOrdered_example :
    (ls : List ProtocolLabel) × (to_label_set two_labels ≡ record { labels = some ls })
    × Perm ls two_labels.labels
    × IsOrdered ls
to_label_set-IsOrdered_example = to_label_set-IsOrdered two_labels (ground arith)

to_label_set-journal_calls_example :
    to_label_set
      (journal_calls (call_collection (codes "a/b") ∷ call_name (codes "c") ∷ []) new_selector)
    ≡ to_label_set
        (journal_calls (call_name (codes "c") ∷ call_collection (codes "a/b") ∷ []) new_selector)
to_label_set-journal_calls_example =
    to_label_set-journal_calls new_selector
      (call_collection (codes "a/b") ∷ call_name (codes "c") ∷ [])
      (call_name (codes "c") ∷ call_collection (codes "a/b") ∷ []) new_selector-IsWellFormed
      (Perm.swap (call_name (codes "c")) (call_collection (codes "a/b")) [])

abbrev swapped_labels : Selector
swapped_labels = record {
  labels = label (codes "name") (codes "a") ∷ label (codes "name") (codes "b") ∷ [];
}

to_label_set-bag_of_example :
    ((to_label_set two_labels ≡ to_label_set swapped_labels)
      ↔ (bag_of two_labels ≡ bag_of swapped_labels))
    × (bag_of new_selector ≡ zero)
    × (bag_of (push (codes "id") (codes "c") two_labels)
        ≡ cons (label (codes "id") (codes "c")) (bag_of two_labels))
to_label_set-bag_of_example =
    to_label_set-bag_of two_labels swapped_labels (codes "id") (codes "c") (ground arith)
      (ground arith)

-- Fields of type string, none of which is missing.
abbrev GivenText : Text → Type 0
GivenText t = Unit

text_lt-IsStrictOrder : IsStrictOrder text_lt GivenText
text_lt-IsStrictOrder = record {
  irrefl = text_lt_irrefl;
  trans = text_lt_trans;
  connected = λ x y hx hy. text_lt_connected x y;
}

abbrev pair_fields : List (Text × Text → Text)
pair_fields = (λ p. p.0) ∷ (λ p. p.1) ∷ []

abbrev ax : Text × Text
ax = (codes "a", codes "x")

abbrev ay : Text × Text
ay = (codes "a", codes "y")

sort_by-neg_example : sort_by text_lt pair_fields ay ax ≡ neg (sort_by text_lt pair_fields ax ay)
sort_by-neg_example = sort_by-neg text_lt GivenText text_lt-IsStrictOrder pair_fields ax ay
