-- ===== src/Json/Members.antt =====
-- The members of the JSON values that the messages of client/src/gen are.
use data_plane_gateway.Prelude.{◌≡◌, refl, false, Option, none, some, List, [], ◌∷◌, map}
use mathlib.Core.Option
use data_plane_gateway.Text.{Text, text_eq}
use data_plane_gateway.Text.Order.{text_eq_refl}
use data_plane_gateway.Js.{Outcome, returned, map_outcome}
use data_plane_gateway.Json.{Json, items, of_list, Fields, lookup, opt, encode_list, map_array}

module _ {ℓ} {A : Type ℓ} where
  pub lookup-opt_other :
      (k j : Text) (encode : A → Json) (o : Option A) (fs : Fields)
      → text_eq j k ≡ false
      → lookup k (opt j encode o fs) ≡ lookup k fs
  unfolding opt
  lookup-opt_other k j encode none fs h = refl
  lookup-opt_other k j encode (some a) fs h = unfold lookup in rw h

  -- A member that no later one repeats is found exactly if it is given.
  pub lookup-opt_self :
      (k : Text) (encode : A → Json) (o : Option A) (fs : Fields)
      → lookup k fs ≡ none
      → lookup k (opt k encode o fs) ≡ Option.map encode o
  unfolding opt
  lookup-opt_self k encode none fs h = h
  lookup-opt_self k encode (some a) fs h = unfold lookup in rw text_eq_refl

  map_outcome-items {κ} :
      {B : Type κ} (f : Json → Outcome B) (encode : A → Json) (g : A → B) (l : List A)
      → ((a : A) → f (encode a) ≡ returned (g a))
      → map_outcome f (items (of_list (map encode l))) ≡ returned (map g l)
  map_outcome-items f encode g [] h = refl
  map_outcome-items f encode g (a ∷ l) h = rw (h a, map_outcome-items f encode g l h)

  -- A function that succeeds on the encoding of every element succeeds on an encoded list.
  pub map_array-encode_list {κ} :
      {B : Type κ} (f : Json → Outcome B) (encode : A → Json) (g : A → B) (l : List A)
      → ((a : A) → f (encode a) ≡ returned (g a))
      → map_array f (some (encode_list encode l)) ≡ returned (map g l)
  unfolding map_array encode_list
  map_array-encode_list f encode g l h = map_outcome-items f encode g l h
