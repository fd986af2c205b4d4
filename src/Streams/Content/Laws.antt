-- ===== src/Streams/Content/Laws.antt =====
-- What `decodeContent` delivers of the messages of a journal.
use data_plane_gateway.Prelude.{
  ℕ, ◌≡◌, ◌≢◌, refl, sym, ap, ◌∙◌, true, Option, some, List, [], ◌∷◌, ◌++◌, append-nil, flatten,
  All, All-append, ap₂, arith, map,
}
use data_plane_gateway.Text.{Text, codes}
use data_plane_gateway.Js.{returned, ◌>>=◌}
use data_plane_gateway.Json.{Json, str, obj, Fields, lookup, member_of}
use data_plane_gateway.Base64.{atob, btoa}
use data_plane_gateway.Base64.RoundTrip.{IsByte, atob-btoa}
use data_plane_gateway.Utf8.{decode, drop_mark, to_units, encode, encode_point}
use data_plane_gateway.Utf8.RoundTrip.{IsScalar, decode-encode}
use data_plane_gateway.Streams.{
  Stream, Ending, closed, errored, feed, feed-returned, feed-closed, prepend, pipe_through,
}
use data_plane_gateway.Streams.TextDecoder.Laws.{to_units-append, flatten-append}
use data_plane_gateway.Streams.Content.{
  has_length, content_text, to_bytes, decode_text, decode_value, decode_content,
}

-- A message whose content is the base64 of the UTF-8 of some characters, with other members.
abbrev pub IsMessage : Fields → List ℕ → Type 0
IsMessage m cs = lookup (codes "content") m ≡ some (str (btoa (encode cs)))

-- Characters that do not begin with a byte order mark.
abbrev pub IsPlain : List ℕ → Type 0
IsPlain cs = All IsScalar cs × (drop_mark cs ≡ cs)

to_bytes-bytes : (bs : List ℕ) → All IsByte bs → to_bytes bs ≡ bs
unfolding to_bytes
to_bytes-bytes [] h = refl
to_bytes-bytes (b ∷ bs) (hb, h) = ground (arith, to_bytes-bytes bs h)

encode_point-bytes : (c : ℕ) → IsScalar c → All IsByte (encode_point c)
unfolding encode_point
encode_point-bytes c h = ground arith

encode-bytes : (cs : List ℕ) → All IsScalar cs → All IsByte (encode cs)
unfolding encode
encode-bytes [] h = tt
encode-bytes (c ∷ cs) (hc, h) =
    All-append IsByte (encode_point c) (encode cs) (encode_point-bytes c hc) (encode-bytes cs h)

-- The texts of a message: one, or none if there is no character.
unfoldable pub message_texts : List ℕ → List Text
message_texts [] = []
message_texts (c ∷ cs) = to_units (c ∷ cs) ∷ []

flatten-message_texts : (cs : List ℕ) → flatten (message_texts cs) ≡ to_units cs
unfolding message_texts flatten to_units
flatten-message_texts [] = refl
flatten-message_texts (c ∷ cs) = append-nil _

encode_point-ne-nil : (c : ℕ) → encode_point c ≢ []
unfolding encode_point
encode_point-ne-nil c = ground arith

append-left-ne-nil {ℓ} : {A : Type ℓ} (xs ys : List A) → xs ≢ [] → xs ++ ys ≢ []
append-left-ne-nil [] ys h = absurd (h refl)
append-left-ne-nil (x ∷ xs) ys h = ground arith

pub btoa-ne-nil : (bs : List ℕ) → bs ≢ [] → btoa bs ≢ []
unfolding btoa
btoa-ne-nil [] h = absurd (h refl)
btoa-ne-nil (a ∷ []) h = ground arith
btoa-ne-nil (a ∷ b ∷ []) h = ground arith
btoa-ne-nil (a ∷ b ∷ c ∷ bs) h = ground arith

pub has_length-str : (s : Text) → s ≢ [] → has_length (some (str s)) ≡ true
unfolding has_length
has_length-str [] h = absurd (h refl)
has_length-str (c ∷ s) h = refl

message-ne-nil : (c : ℕ) (cs : List ℕ) → btoa (encode (c ∷ cs)) ≢ []
unfolding encode
message-ne-nil c cs =
    btoa-ne-nil _ (append-left-ne-nil (encode_point c) (encode cs) (encode_point-ne-nil c))

pub decode_value_given :
    (v : Option Json)
    → has_length v ≡ true
    → decode_value v ≡ (decode_text (atob (content_text v)) >>= λ text. returned (text ∷ []))
decode_value_given v h = unfold decode_value in rw (h, decode_value)

pub decode_text-btoa :
    (bs : List ℕ) → All IsByte bs → decode_text (atob (btoa bs)) ≡ returned (decode bs)
unfolding decode_text
decode_text-btoa bs h = rw (atob-btoa bs h, to_bytes-bytes bs h)

decode_value-message :
    (cs : List ℕ)
    → IsPlain cs
    → decode_value (some (str (btoa (encode cs)))) ≡ returned (message_texts cs)
unfolding message_texts content_text
decode_value-message [] h = unfold decode_value has_length btoa encode in refl
decode_value-message (c ∷ cs) (h, p) =
    decode_value_given _ (has_length-str _ (message-ne-nil c cs))
    ∙ ap (λ o. o >>= λ text. returned (text ∷ []))
        (decode_text-btoa (encode (c ∷ cs)) (encode-bytes (c ∷ cs) h))
    ∙ rw (decode-encode (c ∷ cs) h p)

-- Messages with their characters.
abbrev pub IsMessages : List (Fields × List ℕ) → Type 0
IsMessages = All (λ m. IsMessage m.0 m.1 × IsPlain m.1)

abbrev pub message_values : List (Fields × List ℕ) → List (Option Json)
message_values = map (λ m. some (obj m.0))

-- All characters of some messages.
abbrev pub all_points : List (Fields × List ℕ) → List ℕ
all_points [] = []
all_points ((m, cs) ∷ ms) = cs ++ all_points ms

decode_step :
    (m : Fields) (cs : List ℕ) (s : Unit)
    → IsMessage m cs
    → IsPlain cs
    → decode_content.transform s (some (obj m)) ≡ returned (s, message_texts cs)
decode_step m cs s h p = unfold decode_content member_of in rw (h, decode_value-message cs p)

feed_lem :
    (ms : List (Fields × List ℕ)) (s : Unit) (e : Ending)
    → IsMessages ms
    → (r : Stream Text) × (feed decode_content s (message_values ms) e ≡ r)
      × (flatten r.chunks ≡ to_units (all_points ms))
      × (r.ending ≡ e)
unfolding flatten prepend to_units
feed_lem [] s closed h = (
  record { chunks = []; ending = closed },
  feed-closed decode_content s {bs = []} (unfold decode_content in refl),
  refl,
  refl,
)
feed_lem [] s (errored x) h =
    (record { chunks = []; ending = errored x }, unfold feed in refl, refl, refl)
feed_lem ((m, cs) ∷ ms) s e ((hm, hp), h) =
    let (r, q, t, k) = feed_lem ms s e h in
    (
      prepend (message_texts cs) r,
      rw (
        feed-returned decode_content s (some (obj m)) (message_values ms) e
            (decode_step m cs s hm hp),
        q,
      ),
      flatten-append (message_texts cs) r.chunks
          ∙ ap₂ ◌++◌ (flatten-message_texts cs) t
          ∙ sym (to_units-append cs (all_points ms)),
      k,
    )

-- The texts that are decoded of messages, whose contents are base64 of whole UTF-8 characters and
-- begin with no byte order mark, spell the characters of all messages; the stream of texts ends as
-- the stream of messages.
pub decode_content_lem :
    (ms : List (Fields × List ℕ)) (e : Ending)
    → IsMessages ms
    → (r : Stream Text) × (pipe_through decode_content
          (record { chunks = message_values ms; ending = e })
        ≡ r)
      × (flatten r.chunks ≡ to_units (all_points ms))
      × (r.ending ≡ e)
unfolding pipe_through
decode_content_lem ms e h = feed_lem ms tt e h
