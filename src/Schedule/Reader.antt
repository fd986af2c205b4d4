-- ===== src/Schedule/Reader.antt =====
-- `readStreamToEnd` of client/src/streams.ts as it runs: `pump` waits for the reader, and what is in
-- front of the reader moves in the meantime.
use data_plane_gateway.Prelude.{
  ℕ, zero, suc, ◌<◌, ◌≡◌, refl, sym, ap, ◌∙◌, subst, ◌⊎◌, inl, inr, true, false, Bool-cases, List,
  [], ◌∷◌, ◌++◌, arith,
}
use data_plane_gateway.Js.{Thrown, Outcome, returned, thrown, Value}
use data_plane_gateway.Streams.{Ending, closed, errored, Stream, prepend}
use data_plane_gateway.Streams.ReadToEnd.{pump, read_stream_to_end}
use data_plane_gateway.Schedule.Cuts.{Cuts, IsErrored}
use data_plane_gateway.Schedule.System.{System, IsSound}

module _ {A : Type 0} ⦃v : Value A⦄ where
  abbrev pub IsThrown : Outcome (List A) → Type 0
  IsThrown o = (e : Thrown) × (o ≡ thrown e)

  -- The outcome is that of a reader that keeps up, or the stream fails and the reading throws.
  abbrev pub Settles : List A → Stream A → Outcome (List A) → Type 0
  Settles results r o = (o ≡ pump results r.chunks r.ending) ⊎ IsErrored r.ending × IsThrown o

  pump-taken :
      (results : List A) (a : A) (r : Stream A)
      → v.truthy a ≡ true
      → pump results (prepend (a ∷ []) r).chunks (prepend (a ∷ []) r).ending
        ≡ pump (results ++ a ∷ []) r.chunks r.ending
  pump-taken results a r h = unfold prepend pump in rw (h, pump)

  pump-stopped :
      (results : List A) (a : A) (r : Stream A)
      → v.truthy a ≡ false
      → pump results (prepend (a ∷ []) r).chunks (prepend (a ∷ []) r).ending ≡ returned results
  pump-stopped results a r h = unfold prepend pump in rw (h, pump)

  pump_shorter :
      (results chunks rest : List A) (x y : Thrown)
      → (pump results chunks (errored y) ≡ pump results (chunks ++ rest) (errored x))
        ⊎ IsThrown (pump results chunks (errored y))
  unfolding pump
  pump_shorter results [] rest x y = inr (y, refl)
  pump_shorter results (a ∷ chunks) rest x y = elim (Bool-cases (v.truthy a)) [
    | inl h ↦ rw (h, pump) (pump_shorter (results ++ a ∷ []) chunks rest x y)
    | inr h ↦ rw (h, pump) (inl refl)
  ]

  Settles-Cuts :
      (results : List A) (r s : Stream A) (o : Outcome (List A))
      → Cuts r s
      → Settles results s o
      → Settles results r o
  Settles-Cuts results r s o (inl p) k = subst (λ t. Settles results t o) p k
  Settles-Cuts results r s o (inr (h, _, _)) (inr (_, t)) = inr (h, t)
  Settles-Cuts results r s o (inr ((x, hx), (y, hy), (rest, p))) (inl q) =
      elim (pump_shorter results s.chunks rest x y) [
        | inl k ↦ inl (
            q
            ∙ ap (pump results s.chunks) hy
            ∙ k
            ∙ ap (λ l. pump results l (errored x)) p
            ∙ ap (pump results r.chunks) (sym hx))
        | inr (e, k) ↦ inr ((x, hx), (e, q ∙ ap (pump results s.chunks) hy ∙ k))
      ]

  Settles-ended :
      (results : List A) (r : Stream A) (e : Ending) (o : Outcome (List A))
      → r ≡ record { chunks = []; ending = e }
      → o ≡ pump results [] e
      → Settles results r o
  Settles-ended results r e o p q = inl (q ∙ ap (λ s. pump results s.chunks s.ending) (sym p))

module _ {A : Type 0} (sys : System A) ⦃v : Value A⦄ where
  -- The loop from a state of what is in front of the reader, with the chunks read so far, to what
  -- the promise settles to.
  pub data Pumps : sys.State → List A → Outcome (List A) → Type 0 where
    waits :
        {x y : sys.State} {results : List A} {o : Outcome (List A)}
        → sys.Step x y
        → Pumps y results o
        → Pumps x results o
    takes :
        {x y : sys.State} {a : A} {results : List A} {o : Outcome (List A)}
        → sys.Pull x a y
        → v.truthy a ≡ true
        → Pumps y (results ++ a ∷ []) o
        → Pumps x results o
    stops :
        {x y : sys.State} {a : A} {results : List A}
        → sys.Pull x a y
        → v.truthy a ≡ false
        → Pumps x results (returned results)
    is_done :
        {x : sys.State} {results : List A}
        → sys.Closes x closed
        → Pumps x results (returned results)
    fails :
        {x : sys.State} {results : List A} {e : Thrown}
        → sys.Closes x (errored e)
        → Pumps x results (thrown e)

  Pumps-Settles :
      IsSound sys
      → {x : sys.State} {results : List A} {o : Outcome (List A)} → Pumps x results o
      → Settles results (sys.rest x) o
  unfolding prepend
  Pumps-Settles sound (waits {x} {y} {results} {o} s p) =
      Settles-Cuts results (sys.rest x) (sys.rest y) o (sound.Step-Cuts x y s)
        (Pumps-Settles sound p)
  Pumps-Settles sound (takes {x} {y} {a} {results} {o} q t p) =
      subst (λ r. Settles results r o) (sym (sound.Pull-rest x a y q))
        (elim (Pumps-Settles sound p) [
          | inl k ↦ inl (k ∙ sym (pump-taken results a (sys.rest y) t))
          | inr k ↦ inr k
        ])
  Pumps-Settles sound (stops {x} {y} {a} {results} q t) = inl (
      sym (
        ap (λ r. pump results r.chunks r.ending) (sound.Pull-rest x a y q)
        ∙ pump-stopped results a (sys.rest y) t))
  Pumps-Settles sound (is_done {x} {results} c) =
      Settles-ended results (sys.rest x) closed _ (sound.Closes-rest x closed c)
        (unfold pump in refl)
  Pumps-Settles sound (fails {x} {results} {e} c) =
      Settles-ended results (sys.rest x) (errored e) _ (sound.Closes-rest x (errored e) c)
        (unfold pump in refl)

  -- Whatever happens in which order, the promise settles to what a reader that keeps up is given,
  -- unless the stream fails; then it may settle to an error instead.
  pub Pumps-read_stream_to_end :
      IsSound sys
      → {x : sys.State} {o : Outcome (List A)} → Pumps x [] o
      → (o ≡ read_stream_to_end (sys.rest x)) ⊎ IsErrored (sys.rest x).ending × IsThrown o
  unfolding read_stream_to_end
  Pumps-read_stream_to_end sound p = Pumps-Settles sound p

  takes_or_stops :
      {x y : sys.State} {a : A} (results : List A)
      → sys.Pull x a y
      → (o : Outcome (List A)) × Pumps y (results ++ a ∷ []) o
      → (o : Outcome (List A)) × Pumps x results o
  takes_or_stops {a} results q (o, p) = elim (Bool-cases (v.truthy a)) [
    | inl t ↦ (o, takes q t p)
    | inr t ↦ (returned results, stops q t)
  ]

  pumps_on :
      IsSound sys
      → (fuel : ℕ) (x : sys.State) (results : List A) → sys.moves x < fuel
      → (o : Outcome (List A)) × Pumps x results o
  pumps_on sound zero x results h = absurd (omega arith)
  pumps_on sound (suc fuel) x results h = elim (sound.progress x) [
    | inl (closed, c) ↦ (returned results, is_done c)
    | inl (errored e, c) ↦ (thrown e, fails c)
    | inr (inl (a, y, q)) ↦
        takes_or_stops results q
          (pumps_on sound fuel y (results ++ a ∷ []) (omega (arith, sound.Pull-moves x a y q)))
    | inr (inr (y, s)) ↦
        let (o, p) = pumps_on sound fuel y results (omega (arith, sound.Step-moves x y s)) in
        (o, waits s p)
  ]

  -- The loop comes to an end.
  pub Pumps_total :
      IsSound sys → (x : sys.State) (results : List A) → (o : Outcome (List A)) × Pumps x results o
  Pumps_total sound x results = pumps_on sound (suc (sys.moves x)) x results (omega arith)
