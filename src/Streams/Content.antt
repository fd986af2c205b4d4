-- ===== src/Streams/Content.antt =====
-- `decodeContent` of client/src/streams.ts.
pub mod Laws
pub mod Cut
use data_plane_gateway.Prelude.{ℕ, ◌%◌, Bool, true, false, Option, none, some, List, [], ◌∷◌, map}
use data_plane_gateway.Text.{Text, codes}
use data_plane_gateway.Js.{Outcome, returned, thrown, invalid_character, ◌>>=◌}
use data_plane_gateway.Json.{
  Json, null, bool, num, str, arr, obj, Items, nil, cons, member_of, lookup, truthy, to_text,
}
use data_plane_gateway.Base64.{atob}
use data_plane_gateway.Utf8.{decode}
use data_plane_gateway.Streams.{Transformer}

-- value.content?.length, as a condition
unfoldable pub has_length : Option Json → Bool
unfolding lookup truthy
has_length none = false
has_length (some null) = false
has_length (some (bool b)) = false
has_length (some (num n)) = false
has_length (some (str [])) = false
has_length (some (str (c ∷ s))) = true
has_length (some (arr nil)) = false
has_length (some (arr (cons v vs))) = true
has_length (some (obj fs)) = elim (lookup (codes "length") fs) [ none ↦ false | some v ↦ truthy v ]

-- The argument of `atob`, which converts it to a string.
unfoldable pub content_text : Option Json → Text
unfolding to_text
content_text none = codes "undefined"
content_text (some v) = to_text v

-- bytes[i] = binary.charCodeAt(i), in a Uint8Array
unfoldable pub to_bytes : List ℕ → List ℕ
to_bytes binary = map (λ c. c % 256) binary

unfoldable pub decode_text : Option (List ℕ) → Outcome Text
decode_text none = thrown invalid_character
decode_text (some binary) = returned (decode (to_bytes binary))

unfoldable pub decode_value : Option Json → Outcome (List Text)
decode_value content = elim (has_length content) [
  | true ↦ decode_text (atob (content_text content)) >>= λ text. returned (text ∷ [])
  | false ↦ returned []
]

unfoldable pub decode_content : Transformer Unit (Option Json) Text
decode_content = record {
  start = tt;
  transform = λ s value. member_of value (codes "content") >>= λ content.
      decode_value content >>= λ texts. returned (s, texts);
  flush = λ s. returned [];
}
