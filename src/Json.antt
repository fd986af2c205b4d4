-- ===== src/Json.antt =====
-- JSON values, as `JSON.parse` returns them and `JSON.stringify` prints them, with the operations
-- that client/src applies to them: member access, the test for truth and the conversion to text.
-- A number is kept as its literal: no code of the client computes with one.
pub mod Stringify
pub mod Scan
pub mod Parse
pub mod Members
pub mod RoundTrip
pub mod Fuel
use data_plane_gateway.Prelude.{
  map, ◌++◌, Bool, true, false, ◌||◌, ◌&&◌, not, Option, none, some, List, [], ◌∷◌, arith, ◌==◌,
  leb, if◌then◌else◌,
}
use data_plane_gateway.Text.{Text, codes, text_eq}
use data_plane_gateway.Js.{Outcome, returned, thrown, type_error, map_outcome}

mutual
  pub data Json : Type 0 where
    null : Json
    bool : Bool → Json
    num : Text → Json
    str : Text → Json
    arr : Items → Json
    obj : Fields → Json

  pub data Items : Type 0 where
    nil : Items
    cons : Json → Items → Items

  pub data Fields : Type 0 where
    end : Fields
    field : Text → Json → Fields → Fields

abbrev pub items : Items → List Json
items nil = []
items (cons v vs) = v ∷ items vs

abbrev pub of_list : List Json → Items
of_list [] = nil
of_list (v ∷ vs) = cons v (of_list vs)

unfoldable pub lookup : Text → Fields → Option Json
lookup k end = none
lookup k (field j v fs) = if text_eq j k then some v else lookup k fs

-- v.k, for a member name that no string, number or array has: `undefined` is `none`.
unfoldable pub member : Json → Text → Outcome (Option Json)
unfolding lookup
member null k = thrown type_error
member (obj fs) k = returned (lookup k fs)
member _ k = returned none

-- v.k, where `v` may be `undefined`
unfoldable pub member_of : Option Json → Text → Outcome (Option Json)
unfolding member
member_of none k = thrown type_error
member_of (some v) k = member v k

-- The literal of a number that is zero: no digit in front of an exponent is another one.
unfoldable pub is_zero : Text → Bool
is_zero [] = true
is_zero (c ∷ s) =
    if c == b'e' || c == b'E' then true else not (leb b'1' c && leb c b'9') && is_zero s

-- Boolean(v)
unfoldable pub truthy : Json → Bool
unfolding is_zero
truthy null = false
truthy (bool b) = b
truthy (num n) = not (is_zero n)
truthy (str []) = false
truthy (str (c ∷ s)) = true
truthy (arr vs) = true
truthy (obj fs) = true

-- String(v); an array is its elements behind commas, in which `null` prints as nothing.
unfoldable mutual
  pub to_text : Json → Text
  to_text null = codes "null"
  to_text (bool true) = codes "true"
  to_text (bool false) = codes "false"
  to_text (num n) = n
  to_text (str s) = s
  to_text (arr vs) = to_text_items vs
  to_text (obj fs) = codes "[object Object]"

  pub to_text_items : Items → Text
  to_text_items nil = []
  to_text_items (cons v vs) = to_text_item v ++ to_text_rest vs

  pub to_text_item : Json → Text
  to_text_item null = []
  to_text_item (bool true) = codes "true"
  to_text_item (bool false) = codes "false"
  to_text_item (num n) = n
  to_text_item (str s) = s
  to_text_item (arr vs) = to_text_items vs
  to_text_item (obj fs) = codes "[object Object]"

  pub to_text_rest : Items → Text
  to_text_rest nil = []
  to_text_rest (cons v vs) = b',' ∷ to_text_item v ++ to_text_rest vs

-- A number by its literal.
abbrev pub Number : Type 0
Number = Text

-- A member that may be `undefined`: then the printed object lacks it.
unfoldable pub opt {ℓ} : {A : Type ℓ} → Text → (A → Json) → Option A → Fields → Fields
opt k encode none fs = fs
opt k encode (some a) fs = field k (encode a) fs

unfoldable pub encode_list {ℓ} : {A : Type ℓ} → (A → Json) → List A → Json
encode_list encode l = arr (of_list (map encode l))

-- Record<string, string>
abbrev pub texts : List (Text × Text) → Fields
texts [] = end
texts ((k, s) ∷ l) = field k (str s) (texts l)

unfoldable pub encode_texts : List (Text × Text) → Json
encode_texts l = obj (texts l)

-- v.map(f), which only an array has
unfoldable pub map_array {ℓ} : {A : Type ℓ} → (Json → Outcome A) → Option Json → Outcome (List A)
map_array f (some (arr vs)) = map_outcome f (items vs)
map_array f _ = thrown type_error
