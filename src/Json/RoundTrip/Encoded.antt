-- ===== src/Json/RoundTrip/Encoded.antt =====
-- Which messages of client/src/gen can be printed as JSON and read back: those whose strings hold
-- code units of 16 bits, and whose numbers are literals.
use data_plane_gateway.Prelude.{
  ◌≡◌, refl, Bool, true, false, Option, none, some, List, [], ◌∷◌, map, All, arith, ltb, ◌&&◌,
  if◌then◌else◌,
}
use data_plane_gateway.Text.{Text, text_eq}
use data_plane_gateway.Json.{Json, str, obj, of_list, Fields, end, field, lookup, opt, encode_list}
use data_plane_gateway.Json.RoundTrip.Strings.{IsUnit16}
use data_plane_gateway.Json.RoundTrip.Values.{IsJson, AreJson, AreMembers}

abbrev pub IsText16 : Text → Type 0
IsText16 = All IsUnit16

abbrev pub is_text16 : Text → Bool
is_text16 [] = true
is_text16 (c ∷ s) = ltb c 0x10000 && is_text16 s

IsText16-of_test : (s : Text) → is_text16 s ≡ true → IsText16 s
IsText16-of_test [] h = tt
IsText16-of_test (c ∷ s) h = (ground arith, IsText16-of_test s (ground arith))

-- A member that is left out satisfies everything.
abbrev pub Given {ℓ} : {A : Type ℓ} → (A → Type 0) → Option A → Type 0
Given P none = Unit
Given P (some a) = P a

abbrev pub absent : Text → List Text → Bool
absent k [] = true
absent k (j ∷ js) = if text_eq j k then false else absent k js

-- Members that can be printed, all of them of the given names.
pub record Fits (ks : List Text) (fs : Fields) : Type 0 where
  pub members : AreMembers fs
  pub no_others : (k : Text) → absent k ks ≡ true → lookup k fs ≡ none

pub Fits-end : Fits [] end
unfolding AreMembers lookup
Fits-end = record { members = tt; no_others = λ k h. refl }

absent-cons :
    (j k : Text) (ks : List Text)
    → absent j (k ∷ ks) ≡ true
    → (text_eq k j ≡ false) × (absent j ks ≡ true)
absent-cons j k ks h = ground arith

module _ {ℓ} {A : Type ℓ} (P : A → Type 0) (encode : A → Json) where
  pub Fits-opt :
      (k : Text) (o : Option A) {ks : List Text} {fs : Fields}
      → ((a : A) → P a → IsJson (encode a))
      → is_text16 k ≡ true
      → absent k ks ≡ true
      → Given P o
      → Fits ks fs
      → Fits (k ∷ ks) (opt k encode o fs)
  unfolding opt AreMembers lookup
  Fits-opt k none {ks} e u h g f = record {
    members = f.members;
    no_others = λ j a. f.no_others j (absent-cons j k ks a).1;
  }
  Fits-opt k (some a) {ks} {fs} e u h g f = record {
    members = (IsText16-of_test k u, e a g, f.no_others k h, f.members);
    no_others = λ j b. others j (absent-cons j k ks b);
  }
    where
      others :
          (j : Text)
          → (text_eq k j ≡ false) × (absent j ks ≡ true)
          → lookup j (field k (encode a) fs) ≡ none
      others j (p, q) = unfold lookup in rw (p, f.no_others j q)

  pub encode_list-IsJson :
      ((a : A) → P a → IsJson (encode a)) → (l : List A) → All P l → IsJson (encode_list encode l)
  unfolding encode_list IsJson
  encode_list-IsJson e l h = are_json l h
    where
      are_json : (l : List A) → All P l → AreJson (of_list (map encode l))
      are_json [] h = unfold AreJson in tt
      are_json (a ∷ l) (ha, h) = unfold AreJson in (e a ha, are_json l h)

pub str-IsJson : (s : Text) → IsText16 s → IsJson (str s)
unfolding IsJson
str-IsJson s h = h

pub obj-IsJson : {ks : List Text} (fs : Fields) → Fits ks fs → IsJson (obj fs)
unfolding IsJson
obj-IsJson fs f = f.members

pub Fits-text :
    (k : Text) (o : Option Text) {ks : List Text} {fs : Fields}
    → is_text16 k ≡ true
    → absent k ks ≡ true
    → Given IsText16 o
    → Fits ks fs
    → Fits (k ∷ ks) (opt k str o fs)
Fits-text k o u h g f = Fits-opt IsText16 str k o str-IsJson u h g f
