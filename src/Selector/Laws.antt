-- ===== src/Selector/Laws.antt =====
-- What client/src/selector.ts sends: the label set of a selector, and how the methods build it.
use mathlib.Core.List.{Perm}
use mathlib.Core.List.Perm
use data_plane_gateway.Prelude.{
  ◌≡◌, refl, ap, ◌⊎◌, inl, inr, true, false, some, List, [], ◌∷◌, ◌++◌, All, arith, Bool-cases,
}
use data_plane_gateway.Prelude.Int.{is_nonpos}
use data_plane_gateway.Text.{Text, codes, ends_with}
use data_plane_gateway.Text.Affixes.{ends_with-append}
use data_plane_gateway.Sort.{sort}
use data_plane_gateway.Sort.Laws.{sort-perm, sort-IsSorted, sort-All, sort-eq_of_perm, IsSorted}
use data_plane_gateway.Gen.Broker.Labels.{ProtocolLabel}
use data_plane_gateway.Selector.{Selector, new_selector, compare_labels, to_label_set}
use data_plane_gateway.Selector.Journal.{prefix}
use data_plane_gateway.Selector.Order.{
  IsComplete, InOrder, InOrder-of_nonpos, compare_labels-IsConsistent, compare_labels-IsFaithful,
}
use data_plane_gateway.Selector.Calls.{
  IsWellFormed, JournalCall, ShardCall, journal_calls, shard_calls, journal_label, shard_label,
  labels-journal_calls, labels-shard_calls, journal_calls-IsWellFormed, shard_calls-IsWellFormed,
}

Label-set : IsSet (List ProtocolLabel)
Label-set = hlevel

pub to_label_set-perm :
    (s t : Selector) → Perm s.labels t.labels → IsWellFormed s → to_label_set s ≡ to_label_set t
unfolding to_label_set
to_label_set-perm s t p h =
    ap (λ (l : List ProtocolLabel). record { labels = some l })
      (sort-eq_of_perm compare_labels-IsConsistent compare_labels-IsFaithful Label-set p h)

-- The label set that a `JournalSelector` sends does not depend on the order in which its methods
-- were called, from any well-formed selector on.
pub to_label_set-journal_calls :
    (s : Selector) (cs ds : List JournalCall)
    → IsWellFormed s
    → Perm cs ds
    → to_label_set (journal_calls cs s) ≡ to_label_set (journal_calls ds s)
to_label_set-journal_calls s cs ds h p =
    to_label_set-perm _ _
      (rw (labels-journal_calls cs s, labels-journal_calls ds s)
        (Perm.append_left s.labels (Perm.map journal_label p)))
      (journal_calls-IsWellFormed cs s h)

-- The label set that a `ShardSelector` sends does not depend on the order in which its methods
-- were called, from any well-formed selector on.
pub to_label_set-shard_calls :
    (s : Selector) (cs ds : List ShardCall)
    → IsWellFormed s
    → Perm cs ds
    → to_label_set (shard_calls cs s) ≡ to_label_set (shard_calls ds s)
to_label_set-shard_calls s cs ds h p =
    to_label_set-perm _ _
      (rw (labels-shard_calls cs s, labels-shard_calls ds s)
        (Perm.append_left s.labels (Perm.map shard_label p)))
      (shard_calls-IsWellFormed cs s h)

-- No label comes after one that it must precede.
abbrev pub IsOrdered : List ProtocolLabel → Type 0
IsOrdered [] = Unit
IsOrdered (l ∷ ls) = All (InOrder l) ls × IsOrdered ls

InOrder-All :
    (l : ProtocolLabel) (ls : List ProtocolLabel)
    → IsComplete l
    → All IsComplete ls
    → All (λ m. is_nonpos (compare_labels l m) ≡ true) ls
    → All (InOrder l) ls
InOrder-All l [] hl h s = tt
InOrder-All l (m ∷ ls) hl (hm, h) (s, ss) =
    (InOrder-of_nonpos l m hl hm s, InOrder-All l ls hl h ss)

pub IsOrdered-of_IsSorted :
    (ls : List ProtocolLabel) → All IsComplete ls → IsSorted compare_labels ls → IsOrdered ls
IsOrdered-of_IsSorted [] h s = tt
IsOrdered-of_IsSorted (l ∷ ls) (hl, h) (s, ss) =
    (InOrder-All l ls hl h s, IsOrdered-of_IsSorted ls h ss)

-- The label set of a well-formed selector holds the labels of the selector, each as often, in the
-- order that the service asks for: by name, then by value.
pub to_label_set-IsOrdered :
    (s : Selector)
    → IsWellFormed s
    → (ls : List ProtocolLabel) × (to_label_set s ≡ record { labels = some ls })
      × Perm ls s.labels
      × IsOrdered ls
unfolding to_label_set
to_label_set-IsOrdered s h = (
  sort compare_labels s.labels,
  refl,
  sort-perm compare_labels s.labels,
  IsOrdered-of_IsSorted _ (sort-All IsComplete compare_labels s.labels h)
      (sort-IsSorted compare_labels-IsConsistent s.labels h),
)

-- A prefix selector has one label, whose value ends in a slash and is the given text or the text
-- with a slash behind it.
pub prefix_lem :
    (v : Text)
    → (w : Text) × ((prefix v).labels
        ≡ record { name = some (codes "prefix"); value = some w } ∷ [])
      × (ends_with (codes "/") w ≡ true)
      × ((w ≡ v) ⊎ (w ≡ v ++ codes "/"))
unfolding prefix
prefix_lem v = elim (Bool-cases (ends_with (codes "/") v)) [
  | inl h ↦ (v, rw h, h, inl refl)
  | inr h ↦ (v ++ codes "/", rw h, ends_with-append v (codes "/"), inr refl)
]

-- A slash at the end of a prefix changes nothing, if the prefix has none there.
pub prefix-append_slash :
    (v : Text) → ends_with (codes "/") v ≡ false → prefix (v ++ codes "/") ≡ prefix v
unfolding prefix
prefix-append_slash v h = rw (ends_with-append v (codes "/"), h)

sort_pair : (l : ProtocolLabel) → sort compare_labels (l ∷ l ∷ []) ≡ l ∷ l ∷ []
unfolding sort
sort_pair l = ground arith

-- A label that is pushed twice is sent twice, though the service asks for unique labels: the
-- label set is sorted and not freed of repetitions.
pub to_label_set_twice :
    (c : ShardCall)
    → to_label_set (shard_calls (c ∷ c ∷ []) new_selector)
      ≡ record { labels = some (shard_label c ∷ shard_label c ∷ []) }
unfolding to_label_set new_selector
to_label_set_twice c = rw (labels-shard_calls (c ∷ c ∷ []) new_selector, sort_pair (shard_label c))
