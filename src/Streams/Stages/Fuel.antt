-- ===== src/Streams/Stages/Fuel.antt =====
-- `parseJSONStream` of client/src/streams.ts does not depend on the fuel of `JSON.parse`.
use data_plane_gateway.Prelude.{
  ◌≡◌, refl, ap, ◌∙◌, sym, ◌↔◌, ◌⊎◌, inl, inr, Option, none, some, Option-cases, List, [], ◌∷◌,
  arith,
}
use data_plane_gateway.Text.{Text}
use data_plane_gateway.Js.{Outcome, returned}
use data_plane_gateway.Json.{Json}
use data_plane_gateway.Json.Parse.{parse}
use data_plane_gateway.Json.Fuel.Whole.{IsReadAs, parse_iff}
use data_plane_gateway.Streams.Stages.{enqueue_parsed, parse_json_stream}

abbrev passed : Option Json → Outcome (Unit {0} × List Json)
passed p = returned (tt, enqueue_parsed p)

-- The first value that is enqueued.
abbrev head_of : Outcome (Unit {0} × List Json) → Option Json
head_of (returned (s, v ∷ vs)) = some v
head_of _ = none

head_of-passed : (p : Option Json) → head_of (passed p) ≡ p
unfolding enqueue_parsed
head_of-passed none = refl
head_of-passed (some v) = refl

passed_iff : (p : Option Json) (v : Json) → (passed p ≡ returned (tt, v ∷ [])) ↔ (p ≡ some v)
passed_iff p v =
    (λ h. sym (head_of-passed p) ∙ ap head_of h, λ h. ap passed h ∙ unfold enqueue_parsed in refl)

skipped_iff : (p : Option Json) → (passed p ≡ returned (tt, [])) ↔ (p ≡ none)
skipped_iff p =
    (λ h. sym (head_of-passed p) ∙ ap head_of h, λ h. ap passed h ∙ unfold enqueue_parsed in refl)

-- A chunk is enqueued as a value exactly if the parser reads it as that value with some fuel, and
-- it is skipped exactly if the parser reads it as no value, with any fuel: the fuel that the parser
-- is given is always enough.
pub parse_json_stream_fuel :
    (chunk : Text) (v : Json)
    → ((parse_json_stream.transform tt chunk ≡ returned (tt, v ∷ [])) ↔ IsReadAs chunk v)
      × ((parse_json_stream.transform tt chunk ≡ returned (tt, []))
          ↔ (¬ ((w : Json) × IsReadAs chunk w)))
unfolding parse_json_stream
parse_json_stream_fuel chunk v = (
  (
    λ h. (parse_iff chunk v).0 ((passed_iff (parse chunk) v).0 h),
    λ h. (passed_iff (parse chunk) v).1 ((parse_iff chunk v).1 h),
  ),
  (
    λ h (w, k). none_some w (sym ((skipped_iff (parse chunk)).0 h) ∙ (parse_iff chunk w).1 k),
    λ h. (skipped_iff (parse chunk)).1 (unread h (Option-cases (parse chunk))),
  ),
)
  where
    none_some : (w : Json) → none ≡ some w → ⊥
    none_some w e = ground arith

    unread :
        ¬ ((w : Json) × IsReadAs chunk w)
        → (parse chunk ≡ none) ⊎ ((w : Json) × (parse chunk ≡ some w))
        → parse chunk ≡ none
    unread h (inl k) = k
    unread h (inr (w, k)) = absurd (h (w, (parse_iff chunk w).0 k))
