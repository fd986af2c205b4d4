-- ===== src/Gateway/Append/Laws.antt =====
-- What `JournalProxy.Append` of journal_server.go passes on.
use data_plane_gateway.Prelude.{
  ◌≡◌, refl, sym, ap, ◌∙◌, Option, none, some, List, [], ◌∷◌, ◌++◌, append_assoc, Option-cases, inl,
  inr, arith, subst,
}
use data_plane_gateway.Text.{Text}
use data_plane_gateway.Gateway.{RpcError, eof, Reply, answer, failure, ended}
use data_plane_gateway.Gateway.Append.{
  Claims, AppendStream, Appended, forward, finish, proceed, append, append_claims,
}
use data_plane_gateway.Gateway.Laws.{ended_iff}

module _ {Request Response : Type 0} (proxy : AppendStream Request Response) where
  pub forward_last :
      (sent : List Request) (req : Request) (e : RpcError)
      → proxy.send sent req ≡ none
      → forward proxy sent req [] e ≡ (ended e, sent ++ req ∷ [])
  forward_last sent req e h = unfold forward in rw (h, forward)

  pub forward_more :
      (sent : List Request) (req r : Request) (rest : List Request) (e : RpcError)
      → proxy.send sent req ≡ none
      → forward proxy sent req (r ∷ rest) e ≡ forward proxy (sent ++ req ∷ []) r rest e
  forward_more sent req r rest e h = unfold forward in rw (h, forward)

  pub forward_fails :
      (sent : List Request) (req : Request) (rest : List Request) (e x : RpcError)
      → proxy.send sent req ≡ some x
      → forward proxy sent req rest e ≡ (some x, sent)
  forward_fails sent req [] e x h = unfold forward in rw (h, forward)
  forward_fails sent req (r ∷ rest) e x h = unfold forward in rw (h, forward)

  -- A send that fails is no success.
  sent_if-none :
      (sent : List Request) (req : Request) (rest : List Request) (e : RpcError)
      → (forward proxy sent req rest e).0 ≡ none
      → proxy.send sent req ≡ none
  sent_if-none sent req rest e n = elim (Option-cases (proxy.send sent req)) [
    | inl h ↦ h
    | inr (x, h) ↦
        absurd (failed_none x (sym (ap (λ r. r.0) (forward_fails sent req rest e x h)) ∙ n))
  ]
    where
      failed_none : (x : RpcError) → some x ≡ none → ⊥
      failed_none x k = ground arith

  forward-none :
      (sent : List Request) (req : Request) (rest : List Request) (e : RpcError)
      → (forward proxy sent req rest e).0 ≡ none
      → (forward proxy sent req rest e ≡ (none, sent ++ req ∷ rest)) × (e ≡ eof)
  forward-none sent req [] e n =
      let h = forward_last sent req e (sent_if-none sent req [] e n) in
      let k : ended e ≡ none = sym (ap (λ r. r.0) h) ∙ n in
      (h ∙ ap (λ o. (o, sent ++ req ∷ [])) k, (ended_iff e).0 k)
  forward-none sent req (r ∷ rest) e n =
      let h = forward_more sent req r rest e (sent_if-none sent req (r ∷ rest) e n) in
      let (k, g) = forward-none (sent ++ req ∷ []) r rest e (sym (ap (λ r. r.0) h) ∙ n) in
      (h ∙ k ∙ ap (λ l. (none, l)) (append_assoc sent (req ∷ []) (r ∷ rest)), g)

  -- What an append did that returned no error.
  abbrev pub IsAppended :
      (Response → Option RpcError) → List Request → RpcError → Appended Request Response → Type 0
  IsAppended send_and_close requests ending a =
      (a.forwarded ≡ requests)
      × (ending ≡ eof)
      × ((resp : Response) × (proxy.close_and_recv requests ≡ answer resp)
          × (send_and_close resp ≡ none)
          × (a.response ≡ some resp))

  finish-none :
      (send_and_close : Response → Option RpcError) (sent : List Request)
      → (finish proxy send_and_close sent).error ≡ none
      → IsAppended send_and_close sent eof (finish proxy send_and_close sent)
  unfolding finish
  finish-none send_and_close sent = go (proxy.close_and_recv sent) refl
    where
      go :
          (c : Reply Response)
          → proxy.close_and_recv sent ≡ c
          → (finish proxy send_and_close sent).error ≡ none
          → IsAppended send_and_close sent eof (finish proxy send_and_close sent)
      go (failure x) h n = absurd (ground (arith, h))
      go (answer resp) h n = elim (Option-cases (send_and_close resp)) [
        | inr (x, k) ↦ absurd (ground (arith, h, k))
        | inl k ↦ rw (h, finish, k, finish) (refl, refl, (resp, refl, k, refl))
      ]

  proceed-none :
      (send_and_close : Response → Option RpcError) (req : Request) (rest : List Request)
      (e : RpcError)
      → (proceed proxy send_and_close req rest e).error ≡ none
      → IsAppended send_and_close (req ∷ rest) e (proceed proxy send_and_close req rest e)
  proceed-none send_and_close req rest e n = elim (Option-cases (forward proxy [] req rest e).0) [
    | inr (x, h) ↦ absurd (failed_none x (sym (stopped x h) ∙ n))
    | inl h ↦
        let (k, g) = forward-none [] req rest e h in
        let p = passed k in
        subst (λ a. IsAppended send_and_close (req ∷ rest) e a) (sym p)
          (subst
            (λ i.
              IsAppended send_and_close (req ∷ rest) i (finish proxy send_and_close (req ∷ rest)))
            (sym g) (finish-none send_and_close (req ∷ rest) (sym (ap (λ a. a.error) p) ∙ n)))
  ]
    where
      failed_none : (x : RpcError) → some x ≡ none → ⊥
      failed_none x k = ground arith

      stopped :
          (x : RpcError)
          → (forward proxy [] req rest e).0 ≡ some x
          → (proceed proxy send_and_close req rest e).error ≡ some x
      stopped x h = unfold proceed in rw (h, proceed)

      passed :
          forward proxy [] req rest e ≡ (none, req ∷ rest)
          → proceed proxy send_and_close req rest e ≡ finish proxy send_and_close (req ∷ rest)
      passed k = unfold proceed in rw (ap (λ r. r.0) k, proceed, ap (λ r. r.1) k)

module _ {Context Request Response : Type 0} (journal : Request → Text)
    (with_claims : Context → Claims → Context) (with_dispatch_default : Context → Context) where
  -- If an append whose stream the broker has opened, under the claim to append to the journal of
  -- its first request, returns no error, then the broker was sent every request, in order; the
  -- client had closed its stream gracefully; and the client was sent the broker's response to these
  -- requests.
  pub append-IsAppended :
      (jc_append : Context → Reply (AppendStream Request Response))
      (send_and_close : Response → Option RpcError) (ctx : Context) (req : Request)
      (rest : List Request) (e : RpcError) (proxy : AppendStream Request Response)
      → jc_append (with_dispatch_default (with_claims ctx (append_claims journal req)))
        ≡ answer proxy
      → (append journal with_claims with_dispatch_default jc_append send_and_close ctx
          (record { messages = req ∷ rest; ending = e })).error
        ≡ none
      → IsAppended proxy send_and_close (req ∷ rest) e (
          append journal with_claims with_dispatch_default jc_append send_and_close ctx
            (record { messages = req ∷ rest; ending = e }))
  append-IsAppended jc_append send_and_close ctx req rest e proxy h n =
      subst (λ a. IsAppended proxy send_and_close (req ∷ rest) e a) (sym opened)
        (proceed-none proxy send_and_close req rest e (sym (ap (λ a. a.error) opened) ∙ n))
    where
      opened :
          append journal with_claims with_dispatch_default jc_append send_and_close ctx
            (record { messages = req ∷ rest; ending = e })
          ≡ proceed proxy send_and_close req rest e
      opened = unfold append in rw (h, append)
