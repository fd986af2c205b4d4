-- ===== src/Streams/ReadToEnd/Laws.antt =====
-- What `readStreamToEnd` returns.
use data_plane_gateway.Prelude.{
  ◌≡◌, refl, true, false, List, [], ◌∷◌, ◌++◌, append-nil, append_assoc, All,
}
use data_plane_gateway.Js.{Outcome, returned, thrown, Value}
use data_plane_gateway.Streams.{Ending, closed, errored}
use data_plane_gateway.Streams.ReadToEnd.{pump, read_stream_to_end}

module _ {ℓ} {A : Type ℓ} ⦃v : Value A⦄ where
  -- A stream that was read whole: its chunks, or its error.
  abbrev pub at_end : List A → Ending → Outcome (List A)
  at_end l closed = returned l
  at_end l (errored e) = thrown e

  pump-All :
      (results chunks : List A) (e : Ending)
      → All (λ a. v.truthy a ≡ true) chunks
      → pump results chunks e ≡ at_end (results ++ chunks) e
  unfolding pump
  pump-All results [] closed h = rw append-nil
  pump-All results [] (errored e) h = refl
  pump-All results (a ∷ chunks) e (ha, h) =
      rw (ha, pump, pump-All (results ++ a ∷ []) chunks e h, append_assoc)

  pump_stop :
      (results chunks rest : List A) (a : A) (e : Ending)
      → All (λ x. v.truthy x ≡ true) chunks
      → v.truthy a ≡ false
      → pump results (chunks ++ a ∷ rest) e ≡ returned (results ++ chunks)
  unfolding pump
  pump_stop results [] rest a e h ha = rw (ha, pump, append-nil)
  pump_stop results (c ∷ chunks) rest a e (hc, h) ha =
      rw (hc, pump, pump_stop (results ++ c ∷ []) chunks rest a e h ha, append_assoc)

  -- A stream whose chunks all count as true is read whole: the result is its chunks if it closes,
  -- and its error if it fails.
  pub read_stream_to_end-All :
      (chunks : List A) (e : Ending)
      → All (λ a. v.truthy a ≡ true) chunks
      → read_stream_to_end (record { chunks = chunks; ending = e }) ≡ at_end chunks e
  unfolding read_stream_to_end
  read_stream_to_end-All chunks e h = pump-All [] chunks e h

  -- The first chunk that counts as false, such as 0, "" or null, ends the reading: the chunks in
  -- front of it are returned as if the stream had closed, and those behind it and an error of the
  -- stream are lost.
  pub read_stream_to_end_falsy :
      (chunks rest : List A) (a : A) (e : Ending)
      → All (λ x. v.truthy x ≡ true) chunks
      → v.truthy a ≡ false
      → read_stream_to_end (record { chunks = chunks ++ a ∷ rest; ending = e }) ≡ returned chunks
  unfolding read_stream_to_end
  read_stream_to_end_falsy chunks rest a e h ha = pump_stop [] chunks rest a e h ha
