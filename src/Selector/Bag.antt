-- ===== src/Selector/Bag.antt =====
-- The selectors of client/src/selector.ts as bags of labels, which forget in what order the methods
-- were called.
use mathlib.Core.List.{Perm}
use mathlib.Core.List.Perm
use mathlib.Core.Option.{get_or}
use mathlib.Core.Quot.{sound}
use mathlib.Mathlib.Data.Multiset.Defs.{Multiset, of_list, coe-eq-coe}
use mathlib.Mathlib.Data.Multiset.ZeroCons.{zero, cons}
use data_plane_gateway.Prelude.{◌≡◌, refl, ap, sym, ◌∙◌, ◌↔◌, some, List, [], ◌∷◌, ◌++◌}
use data_plane_gateway.Text.{Text}
use data_plane_gateway.Sort.{sort}
use data_plane_gateway.Sort.Laws.{sort-perm}
use data_plane_gateway.Gen.Broker.Labels.{ProtocolLabel}
use data_plane_gateway.Selector.{Selector, new_selector, push, compare_labels, to_label_set}
use data_plane_gateway.Selector.Calls.{IsWellFormed}
use data_plane_gateway.Selector.Laws.{to_label_set-perm}

abbrev pub Bag : Type 0
Bag = Multiset ProtocolLabel

abbrev pub bag_of : Selector → Bag
bag_of s = of_list s.labels

sorted :
    (s t : Selector)
    → to_label_set s ≡ to_label_set t
    → sort compare_labels s.labels ≡ sort compare_labels t.labels
unfolding to_label_set
sorted s t h = ap (λ l. get_or l.labels []) h

bag-of_sorted :
    (s t : Selector)
    → sort compare_labels s.labels ≡ sort compare_labels t.labels
    → bag_of s ≡ bag_of t
bag-of_sorted s t h =
    sym (sound (sort-perm compare_labels s.labels))
    ∙ ap of_list h
    ∙ sound (sort-perm compare_labels t.labels)

Perm-last : (l : ProtocolLabel) (ls : List ProtocolLabel) → Perm (ls ++ l ∷ []) (l ∷ ls)
Perm-last l [] = Perm.refl (l ∷ [])
Perm-last l (m ∷ ls) = Perm.trans (Perm.cons m (Perm-last l ls)) (Perm.swap l m ls)

-- A label set is what a bag of labels is on the wire: well-formed selectors send the same label set
-- exactly if they hold the same bag of labels. A new selector holds the empty bag, and every method
-- that pushes a label puts it into the bag, whatever the bag holds.
pub to_label_set-bag_of :
    (s t : Selector) (name value : Text)
    → IsWellFormed s
    → IsWellFormed t
    → ((to_label_set s ≡ to_label_set t) ↔ (bag_of s ≡ bag_of t))
      × (bag_of new_selector ≡ zero)
      × (bag_of (push name value s)
          ≡ cons (record { name = some name; value = some value }) (bag_of s))
unfolding new_selector push
to_label_set-bag_of s t name value hs ht = (
  (λ h. bag-of_sorted s t (sorted s t h), λ h. to_label_set-perm s t (coe-eq-coe.0 h) hs),
  refl,
  sound (Perm-last (record { name = some name; value = some value }) s.labels),
)
