-- ===== src/Selector.antt =====
-- client/src/selector.ts: `Selector` and its two subclasses. A method that pushes a label and
-- returns `this` is a function to the new selector.
pub mod Journal
pub mod Shard
pub mod Order
pub mod Calls
pub mod Laws
pub mod Posted
pub mod Bag
use data_plane_gateway.Prelude.{Bool, false, Option, none, some, List, [], ◌∷◌, ◌++◌}
use data_plane_gateway.Prelude.Int.{ℤ}
use data_plane_gateway.Text.{Text, codes, text_lt}
use data_plane_gateway.Util.SortBy.{sort_by}
use data_plane_gateway.Sort.{sort}
use data_plane_gateway.Gen.Broker.Labels.{ProtocolLabel, ProtocolLabelSet}

pub record Selector : Type 0 where
  pub labels : List ProtocolLabel

-- constructor()
unfoldable pub new_selector : Selector
new_selector = record { labels = [] }

-- this.labels.push({ name, value })
unfoldable pub push : Text → Text → Selector → Selector
push name value this = record {
  labels = this.labels ++ record { name = some name; value = some value } ∷ [];
}

-- `<` on strings that may be `undefined`, which compares with nothing.
unfoldable pub value_lt : Option Text → Option Text → Bool
value_lt (some s) (some t) = text_lt s t
value_lt (some s) none = false
value_lt none t = false

abbrev pub label_fields : List (ProtocolLabel → Option Text)
label_fields = (λ l. l.name) ∷ (λ l. l.value) ∷ []

-- sortBy("name", "value")
unfoldable pub compare_labels : ProtocolLabel → ProtocolLabel → ℤ
unfolding sort_by value_lt
compare_labels = sort_by value_lt label_fields

unfoldable pub to_label_set : Selector → ProtocolLabelSet
unfolding compare_labels
to_label_set this = record { labels = some (sort compare_labels this.labels) }
