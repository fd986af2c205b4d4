-- ===== src/Selector/Order.antt =====
-- The order of labels: by name, then by value.
use data_plane_gateway.Prelude.{◌≡◌, ◌≢◌, refl, ap, ◌⊎◌, true, false, Option, none, some, arith}
use data_plane_gateway.Prelude.Int.{is_nonpos}
use data_plane_gateway.Text.{Text, text_lt}
use data_plane_gateway.Text.Order.{text_lt_irrefl, text_lt_trans, text_lt_connected}
use data_plane_gateway.Util.SortBy.Laws.{IsStrictOrder, sort_by-neg, sort_by_trans, sort_by-zero}
use data_plane_gateway.Sort.Laws.{IsConsistent, IsFaithful}
use data_plane_gateway.Gen.Broker.Labels.{ProtocolLabel}
use data_plane_gateway.Selector.{value_lt, label_fields, compare_labels}

-- The value is not `undefined`.
abbrev pub IsGiven : Option Text → Type 0
IsGiven v = v ≢ none

value_lt-IsStrictOrder : IsStrictOrder value_lt IsGiven
unfolding value_lt
value_lt-IsStrictOrder = record { irrefl = irrefl; trans = trans; connected = connected }
  where
    irrefl : (x : Option Text) → value_lt x x ≡ false
    irrefl none = refl
    irrefl (some s) = text_lt_irrefl s

    trans : (x y z : Option Text) → value_lt x y ≡ true → value_lt y z ≡ true → value_lt x z ≡ true
    trans none y z p q = absurd (ground arith)
    trans (some s) none z p q = absurd (ground arith)
    trans (some s) (some t) none p q = absurd (ground arith)
    trans (some s) (some t) (some u) p q = text_lt_trans s t u p q

    connected :
        (x y : Option Text)
        → IsGiven x
        → IsGiven y
        → value_lt x y ≡ false
        → value_lt y x ≡ false
        → x ≡ y
    connected none y hx hy p q = absurd (hx refl)
    connected (some s) none hx hy p q = absurd (hy refl)
    connected (some s) (some t) hx hy p q = ap some (text_lt_connected s t p q)

-- A label with a name and a value.
abbrev pub IsComplete : ProtocolLabel → Type 0
IsComplete l = IsGiven l.name × (IsGiven l.value × Unit {0})

pub compare_labels-IsConsistent : IsConsistent compare_labels IsComplete
unfolding compare_labels
compare_labels-IsConsistent = record {
  flip = λ a b. sort_by-neg value_lt IsGiven value_lt-IsStrictOrder label_fields a b;
  trans = λ a b c ha hb hc p q.
      sort_by_trans value_lt IsGiven value_lt-IsStrictOrder label_fields a b c ha hb hc p q;
}

pub compare_labels-IsFaithful : IsFaithful compare_labels-IsConsistent
unfolding compare_labels
compare_labels-IsFaithful a b ha hb h =
    let (same_name, (same_value, _)) =
      sort_by-zero value_lt IsGiven value_lt-IsStrictOrder label_fields a b ha hb h in
    λ i. record { name = same_name i; value = same_value i }

-- The order that the LabelSet of the service asks for: over names, then over values.
abbrev pub Precedes : Option Text → Option Text → Type 0
Precedes (some s) (some t) = text_lt s t ≡ true
Precedes _ _ = ⊥

abbrev pub InOrder : ProtocolLabel → ProtocolLabel → Type 0
InOrder a b =
    Precedes a.name b.name ⊎ (a.name ≡ b.name) × (Precedes a.value b.value ⊎ (a.value ≡ b.value))

pub InOrder-of_nonpos :
    (a b : ProtocolLabel)
    → IsComplete a
    → IsComplete b
    → is_nonpos (compare_labels a b) ≡ true
    → InOrder a b
unfolding compare_labels
InOrder-of_nonpos a b ha hb h = fields a.name b.name a.value b.value ha hb h
  where
    fields :
        (n m v w : Option Text)
        → IsGiven n × (IsGiven v × Unit {0})
        → IsGiven m × (IsGiven w × Unit {0})
        → is_nonpos
            (compare_labels (record { name = n; value = v }) (record { name = m; value = w }))
          ≡ true
        → Precedes n m ⊎ (n ≡ m) × (Precedes v w ⊎ (v ≡ w))
    fields none m v w hn hm h = absurd (hn.0 refl)
    fields (some n) none v w hn hm h = absurd (hm.0 refl)
    fields (some n) (some m) none w hn hm h = absurd (hn.1.0 refl)
    fields (some n) (some m) (some v) none hn hm h = absurd (hm.1.0 refl)
    fields (some n) (some m) (some v) (some w) hn hm h =
        ground (arith, text_lt_connected n m, text_lt_connected v w)
