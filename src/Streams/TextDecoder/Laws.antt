-- ===== src/Streams/TextDecoder/Laws.antt =====
-- What `TextDecoderStream` delivers, against the decoding of all bytes.
use data_plane_gateway.Prelude.{
  ℕ, ◌≡◌, refl, sym, ◌∙◌, Bool, true, false, List, [], ◌∷◌, ◌++◌, append-nil, append_assoc, flatten,
  arith, if◌then◌else◌,
}
use data_plane_gateway.Text.{Text}
use data_plane_gateway.Js.{returned, Thrown}
use data_plane_gateway.Utf8.{Decoder, idle, run, end_of_input, drop_mark, to_units, utf16, decode}
use data_plane_gateway.Utf8.RoundTrip.{run-append}
use data_plane_gateway.Streams.{
  Stream, Ending, closed, errored, feed, feed-returned, feed-closed, prepend, pipe_through,
}
use data_plane_gateway.Streams.TextDecoder.{
  TextDecoder, is_empty, points_to_send, enqueue_text, text_decoder_stream,
}

pub to_units-append : (a b : List ℕ) → to_units (a ++ b) ≡ to_units a ++ to_units b
unfolding to_units
to_units-append [] b = refl
to_units-append (c ∷ a) b = rw (to_units-append a b) (sym (append_assoc (utf16 c) _ _))

flatten-enqueue_text : (cs : List ℕ) → flatten (enqueue_text cs) ≡ to_units cs
unfolding enqueue_text flatten to_units
flatten-enqueue_text [] = refl
flatten-enqueue_text (c ∷ cs) = append-nil _

-- What is sent of code points in two pieces is what is sent of both.
points_to_send-append :
    (started : Bool) (a b : List ℕ)
    → points_to_send started a ++ points_to_send (if is_empty a then started else true) b
      ≡ points_to_send started (a ++ b)
unfolding points_to_send
points_to_send-append true [] b = refl
points_to_send-append true (x ∷ a) b = refl
points_to_send-append false [] b = refl
points_to_send-append false (x ∷ a) b = unfold drop_mark in ground arith

-- The code points at the end of a stream: an error of the source is passed on without a flush.
abbrev end_points : Ending → Decoder → List ℕ
end_points closed d = end_of_input d
end_points (errored x) d = []

-- The code points behind a state.
points_from : Ending → Decoder → List ℕ → List ℕ
points_from e d bytes = (run d bytes).1 ++ end_points e (run d bytes).0

points_from-append :
    (e : Ending) (d : Decoder) (a b : List ℕ)
    → points_from e d (a ++ b) ≡ (run d a).1 ++ points_from e (run d a).0 b
unfolding points_from
points_from-append e d a b = rw (run-append d a b) (append_assoc (run d a).1 _ _)

-- The text of some bytes, as far as it is received: behind an error, a character that is not
-- complete is left out.
abbrev pub received : Ending → List ℕ → Text
received closed bytes = decode bytes
received (errored x) bytes = to_units (drop_mark (run idle bytes).1)

pub flatten-append {ℓ} :
    {A : Type ℓ} (a b : List (List A)) → flatten (a ++ b) ≡ flatten a ++ flatten b
unfolding flatten
flatten-append [] b = refl
flatten-append (x ∷ a) b = rw (flatten-append a b) (sym (append_assoc x _ _))

abbrev sent : TextDecoder → List ℕ → List Text
sent s bytes = enqueue_text (points_to_send s.started (run s.decoder bytes).1)

abbrev behind : TextDecoder → List ℕ → TextDecoder
behind s bytes = record {
  started = if is_empty (run s.decoder bytes).1 then s.started else true;
  decoder = (run s.decoder bytes).0;
}

transform_lem :
    (s : TextDecoder) (bytes : List ℕ)
    → text_decoder_stream.transform s bytes ≡ returned (behind s bytes, sent s bytes)
unfolding text_decoder_stream
transform_lem s bytes = refl

flush_lem :
    (s : TextDecoder)
    → text_decoder_stream.flush s
      ≡ returned (enqueue_text (points_to_send s.started (points_from closed s.decoder [])))
unfolding text_decoder_stream points_from
flush_lem s = refl

send_nothing :
    (started : Bool) (d : Decoder) (x : Thrown)
    → to_units (points_to_send started (points_from (errored x) d [])) ≡ []
unfolding points_to_send points_from to_units drop_mark run
send_nothing true d x = refl
send_nothing false d x = refl

feed_lem :
    (chunks : List (List ℕ)) (s : TextDecoder) (e : Ending)
    → (r : Stream Text) × (feed text_decoder_stream s chunks e ≡ r)
      × (flatten r.chunks
          ≡ to_units (points_to_send s.started (points_from e s.decoder (flatten chunks))))
      × (r.ending ≡ e)
unfolding flatten prepend
feed_lem [] s closed =
    (_, feed-closed text_decoder_stream s (flush_lem s), flatten-enqueue_text _, refl)
feed_lem [] s (errored x) = (
  record { chunks = []; ending = errored x },
  unfold feed in refl,
  sym (send_nothing s.started s.decoder x),
  refl,
)
feed_lem (c ∷ chunks) s e =
    let (r, q, h, k) = feed_lem chunks (behind s c) e in
    (
      prepend (sent s c) r,
      rw (feed-returned text_decoder_stream s c chunks e (transform_lem s c), q),
      rw (
        flatten-append (sent s c) r.chunks,
        h,
        flatten-enqueue_text,
        ← to_units-append _ _,
        points_to_send-append,
        points_from-append e s.decoder c (flatten chunks),
      ),
      k,
    )

start_lem : text_decoder_stream.start ≡ record { started = false; decoder = idle }
unfolding text_decoder_stream
start_lem = refl

received_lem :
    (e : Ending) (bs : List ℕ)
    → to_units (points_to_send false (points_from e idle bs)) ≡ received e bs
unfolding decode points_to_send points_from
received_lem closed bs = refl
received_lem (errored x) bs = rw append-nil

-- The texts that are read from a body spell the decoding of its bytes, and the stream of texts ends
-- as the body.
pub text_decoder_stream_lem :
    (chunks : List (List ℕ)) (e : Ending)
    → (r : Stream Text) × (pipe_through text_decoder_stream (record { chunks = chunks; ending = e })
        ≡ r)
      × (flatten r.chunks ≡ received e (flatten chunks))
      × (r.ending ≡ e)
unfolding pipe_through
text_decoder_stream_lem chunks e =
    let (r, q, h, k) = feed_lem chunks (record { started = false; decoder = idle }) e in
    (r, rw start_lem q, h ∙ received_lem e (flatten chunks), k)
