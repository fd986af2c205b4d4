-- ===== src/Streams/TextDecoder.antt =====
-- `TextDecoderStream` of the browser, through which client/src/journal_client.ts pipes the body of
-- a response: characters that are cut between two chunks are put together.
pub mod Laws
use data_plane_gateway.Prelude.{ℕ, Bool, true, false, ◌||◌, List, [], ◌∷◌, if◌then◌else◌}
use data_plane_gateway.Text.{Text}
use data_plane_gateway.Js.{Outcome, returned}
use data_plane_gateway.Utf8.{Decoder, idle, run, end_of_input, drop_mark, to_units}
use data_plane_gateway.Streams.{Transformer}

-- `started` holds when a character was read, so that no byte order mark may follow.
pub record TextDecoder : Type 0 where
  pub started : Bool
  pub decoder : Decoder

abbrev pub is_empty {ℓ} : {A : Type ℓ} → List A → Bool
is_empty [] = true
is_empty (x ∷ xs) = false

unfoldable pub points_to_send : Bool → List ℕ → List ℕ
unfolding drop_mark
points_to_send started cs = if started then cs else drop_mark cs

-- An empty text is not enqueued.
unfoldable pub enqueue_text : List ℕ → List Text
unfolding to_units
enqueue_text [] = []
enqueue_text (c ∷ cs) = to_units (c ∷ cs) ∷ []

unfoldable pub text_decoder_stream : Transformer TextDecoder (List ℕ) Text
unfolding run points_to_send enqueue_text end_of_input
text_decoder_stream = record {
  start = record { started = false; decoder = idle };
  transform = λ s bytes.
      let (d, cs) = run s.decoder bytes in
      returned (
        record { started = if is_empty cs then s.started else true; decoder = d },
        enqueue_text (points_to_send s.started cs),
      );
  flush = λ s. returned (enqueue_text (points_to_send s.started (end_of_input s.decoder)));
}
