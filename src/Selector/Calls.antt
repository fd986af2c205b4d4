-- ===== src/Selector/Calls.antt =====
-- Calls of the methods of client/src/selector.ts in turn: what they push, and what they keep.
use data_plane_gateway.Prelude.{
  ◌≡◌, sym, ◌∙◌, some, List, [], ◌∷◌, ◌++◌, All, All-append, append-nil, append_assoc, arith, map,
}
use data_plane_gateway.Text.{Text, codes}
use data_plane_gateway.Gen.Broker.Labels.{ProtocolLabel}
use data_plane_gateway.Selector.{Selector, new_selector, push}
use data_plane_gateway.Selector.Journal.{JournalSelector, collection, name}
use data_plane_gateway.Selector.Shard.{ShardSelector, task, id}
use data_plane_gateway.Selector.Order.{IsComplete}

-- What the constructors and the methods keep: every label has a name and a value.
abbrev pub IsWellFormed : Selector → Type 0
IsWellFormed s = All IsComplete s.labels

-- The methods of the two classes, as calls of one selector.
pub data JournalCall : Type 0 where
  call_collection call_name : Text → JournalCall

pub data ShardCall : Type 0 where
  call_task call_id : Text → ShardCall

unfoldable pub journal_call : JournalCall → JournalSelector → JournalSelector
unfolding collection name
journal_call (call_collection v) this = collection v this
journal_call (call_name v) this = name v this

unfoldable pub shard_call : ShardCall → ShardSelector → ShardSelector
unfolding task id
shard_call (call_task v) this = task v this
shard_call (call_id v) this = id v this

-- The calls in turn, as in `new ShardSelector().task(a).id(b)`.
unfoldable pub journal_calls : List JournalCall → JournalSelector → JournalSelector
unfolding journal_call
journal_calls [] this = this
journal_calls (c ∷ cs) this = journal_calls cs (journal_call c this)

unfoldable pub shard_calls : List ShardCall → ShardSelector → ShardSelector
unfolding shard_call
shard_calls [] this = this
shard_calls (c ∷ cs) this = shard_calls cs (shard_call c this)

pub push-IsWellFormed : (n v : Text) (s : Selector) → IsWellFormed s → IsWellFormed (push n v s)
unfolding push
push-IsWellFormed n v s h =
    All-append IsComplete s.labels _ h ((ground arith, (ground arith, tt)), tt)

pub new_selector-IsWellFormed : IsWellFormed new_selector
unfolding new_selector
new_selector-IsWellFormed = tt

abbrev pub journal_label : JournalCall → ProtocolLabel
journal_label (call_collection v) = record {
  name = some (codes "estuary.dev/collection");
  value = some v;
}
journal_label (call_name v) = record { name = some (codes "name"); value = some v }

abbrev pub shard_label : ShardCall → ProtocolLabel
shard_label (call_task v) = record { name = some (codes "estuary.dev/task-name"); value = some v }
shard_label (call_id v) = record { name = some (codes "id"); value = some v }

pub labels-journal_calls :
    (cs : List JournalCall) (s : Selector)
    → (journal_calls cs s).labels ≡ s.labels ++ map journal_label cs
unfolding journal_calls push
labels-journal_calls [] s = sym (append-nil s.labels)
labels-journal_calls (call_collection v ∷ cs) s =
    labels-journal_calls cs (journal_call (call_collection v) s) ∙ append_assoc s.labels _ _
labels-journal_calls (call_name v ∷ cs) s =
    labels-journal_calls cs (journal_call (call_name v) s) ∙ append_assoc s.labels _ _

pub labels-shard_calls :
    (cs : List ShardCall) (s : Selector)
    → (shard_calls cs s).labels ≡ s.labels ++ map shard_label cs
unfolding shard_calls push
labels-shard_calls [] s = sym (append-nil s.labels)
labels-shard_calls (call_task v ∷ cs) s =
    labels-shard_calls cs (shard_call (call_task v) s) ∙ append_assoc s.labels _ _
labels-shard_calls (call_id v ∷ cs) s =
    labels-shard_calls cs (shard_call (call_id v) s) ∙ append_assoc s.labels _ _

journal_labels-IsComplete : (cs : List JournalCall) → All IsComplete (map journal_label cs)
journal_labels-IsComplete [] = tt
journal_labels-IsComplete (call_collection v ∷ cs) =
    ((ground arith, (ground arith, tt)), journal_labels-IsComplete cs)
journal_labels-IsComplete (call_name v ∷ cs) =
    ((ground arith, (ground arith, tt)), journal_labels-IsComplete cs)

shard_labels-IsComplete : (cs : List ShardCall) → All IsComplete (map shard_label cs)
shard_labels-IsComplete [] = tt
shard_labels-IsComplete (call_task v ∷ cs) =
    ((ground arith, (ground arith, tt)), shard_labels-IsComplete cs)
shard_labels-IsComplete (call_id v ∷ cs) =
    ((ground arith, (ground arith, tt)), shard_labels-IsComplete cs)

-- Any calls of the methods keep a selector well formed.
pub journal_calls-IsWellFormed :
    (cs : List JournalCall) (s : Selector) → IsWellFormed s → IsWellFormed (journal_calls cs s)
journal_calls-IsWellFormed cs s h =
    rw (labels-journal_calls cs s)
      (All-append IsComplete s.labels _ h (journal_labels-IsComplete cs))

pub shard_calls-IsWellFormed :
    (cs : List ShardCall) (s : Selector) → IsWellFormed s → IsWellFormed (shard_calls cs s)
shard_calls-IsWellFormed cs s h =
    rw (labels-shard_calls cs s) (All-append IsComplete s.labels _ h (shard_labels-IsComplete cs))
