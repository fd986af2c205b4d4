-- ===== src/Gateway/Rounds.antt =====
-- The loops of `JournalProxy.List` and `JournalProxy.Read` of journal_server.go, round by round: a
-- blocking read of a journal has no end, so that the loop goes on for as long as messages come.
use data_plane_gateway.Prelude.{
  ℕ, zero, suc, ◌<◌, ◌≡◌, refl, sym, ap, ◌∙◌, inl, inr, Option, none, some, List, [], ◌∷◌, ◌++◌,
  append_assoc, append-nil, length, arith, Option-cases,
}
use data_plane_gateway.Gateway.{RpcError, Reply, answer, failure, Sink, ended}
use data_plane_gateway.Gateway.Relay.{relay}
use data_plane_gateway.Gateway.Laws.{relay_step, relay_stop}

-- The loop is in some round, or has returned an error or none.
pub data Progress : Type 0 where
  running : Progress
  returned : Option RpcError → Progress

-- What `Recv` returns when it is called for the n-th time, from 0 on.
abbrev pub Receiver : Type 0 → Type 0
Receiver A = ℕ → Reply A

-- The messages of a list, and behind them the error that ends them.
abbrev pub receive : {A : Type 0} → List A → RpcError → Receiver A
receive [] ending n = failure ending
receive (a ∷ l) ending zero = answer a
receive (a ∷ l) ending (suc n) = receive l ending n

-- The first messages of an endless stream.
abbrev pub first : {A : Type 0} → (ℕ → A) → ℕ → List A
first f zero = []
first f (suc n) = f 0 ∷ first (λ k. f (suc k)) n

module _ {A : Type 0} (send : Sink A) where
  -- A number of rounds at most, from those on in which the messages so far were sent.
  unfoldable pub rounds : ℕ → Receiver A → List A → Progress × List A
  rounds zero recv sent = (running, sent)
  rounds (suc n) recv sent = elim (recv 0) [
    | failure err ↦ (returned (ended err), sent)
    | answer resp ↦ elim (send sent resp) [
      | some err ↦ (returned (some err), sent)
      | none ↦ rounds n (λ k. recv (suc k)) (sent ++ resp ∷ [])
    ]
  ]

  rounds_more :
      (n : ℕ) (recv : Receiver A) (sent : List A) (a : A)
      → recv 0 ≡ answer a
      → send sent a ≡ none
      → rounds (suc n) recv sent ≡ rounds n (λ k. recv (suc k)) (sent ++ a ∷ [])
  rounds_more n recv sent a h k = unfold rounds in rw (h, rounds, k, rounds)

  rounds_refused :
      (n : ℕ) (recv : Receiver A) (sent : List A) (a : A) (x : RpcError)
      → recv 0 ≡ answer a
      → send sent a ≡ some x
      → rounds (suc n) recv sent ≡ (returned (some x), sent)
  rounds_refused n recv sent a x h k = unfold rounds in rw (h, rounds, k, rounds)

  rounds_live :
      (f : ℕ → A) (recv : Receiver A) (n : ℕ) (sent : List A)
      → ((k : ℕ) → recv k ≡ answer (f k))
      → ((l : List A) (a : A) → send l a ≡ none)
      → rounds n recv sent ≡ (running, sent ++ first f n)
  rounds_live f recv zero sent h k = unfold rounds in ap (λ l. (running, l)) (sym (append-nil sent))
  rounds_live f recv (suc n) sent h k =
      rounds_more n recv sent (f 0) (h 0) (k sent (f 0))
      ∙ rounds_live (λ i. f (suc i)) (λ i. recv (suc i)) n (sent ++ f 0 ∷ []) (λ i. h (suc i)) k
      ∙ ap (λ l. (running, l)) (append_assoc sent (f 0 ∷ []) (first (λ i. f (suc i)) n))

  rounds-relay :
      (messages : List A) (ending : RpcError) (n : ℕ) (sent : List A)
      → length messages < n
      → rounds n (receive messages ending) sent
        ≡ (returned (relay send sent messages ending).0, (relay send sent messages ending).1)
  rounds-relay messages ending zero sent h = absurd (omega arith)
  rounds-relay [] ending (suc n) sent h = unfold rounds relay in refl
  rounds-relay (a ∷ l) ending (suc n) sent h = elim (Option-cases (send sent a)) [
    | inl k ↦
        rounds_more n (receive (a ∷ l) ending) sent a refl k
        ∙ rounds-relay l ending n (sent ++ a ∷ []) (omega arith)
        ∙ ap (λ r. (returned r.0, r.1)) (sym (relay_step send sent a l ending k))
    | inr (x, k) ↦
        rounds_refused n (receive (a ∷ l) ending) sent a x refl k
        ∙ ap (λ r. (returned r.0, r.1)) (sym (relay_stop send sent a l ending x k))
  ]

  -- As long as messages come and the client takes them, the loops of `List` and `Read` go on: after
  -- any number of rounds they have not returned, and the client was sent as many messages, the first
  -- ones, in order.
  pub rounds_go_on :
      (f : ℕ → A) (recv : Receiver A) (n : ℕ)
      → ((k : ℕ) → recv k ≡ answer (f k))
      → ((l : List A) (a : A) → send l a ≡ none)
      → rounds n recv [] ≡ (running, first f n)
  rounds_go_on f recv n h k = rounds_live f recv n [] h k

  -- If the stream of the broker ends, with io.EOF or another error, the loops of `List` and `Read`
  -- return after one round for each message and one more, or earlier, whether the client takes all
  -- messages or not; and running them for more rounds gives the same.
  pub rounds_return :
      (messages : List A) (ending : RpcError) (n : ℕ)
      → length messages < n
      → rounds n (receive messages ending) []
        ≡ (returned (relay send [] messages ending).0, (relay send [] messages ending).1)
  rounds_return messages ending n h = rounds-relay messages ending n [] h
