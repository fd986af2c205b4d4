-- ===== src/Gateway/Laws.antt =====
-- What the gateway's gRPC side relays, and what it asks of a caller.
use data_plane_gateway.Prelude.{
  ℕ, ◌≡◌, ◌≢◌, ◌↔◌, refl, sym, Option, none, some, List, [], ◌∷◌, ◌++◌, append-nil, append_assoc,
  Option-cases, inl, inr, arith, subst,
}
use data_plane_gateway.Text.{Text, codes}
use data_plane_gateway.Gateway.{RpcError, eof, failed, Reply, answer, failure, Source, Sink, ended}
use data_plane_gateway.Gateway.Authorizer.{Metadata, authorize}
use data_plane_gateway.Gateway.Relay.{relay, serve, read, list}

append_self : {A : Type 0} (l m : List A) (a : A) → l ≢ l ++ a ∷ m
append_self [] m a e = ground arith
append_self (x ∷ l) m a e = append_self l m a (ground arith)

pub ended_iff : (e : RpcError) → (ended e ≡ none) ↔ (e ≡ eof)
unfolding ended
ended_iff eof = (λ _. refl, λ _. refl)
ended_iff (failed m) = (λ h. ground arith, λ h. ground arith)

-- A relay that returned an error, if any, and the messages it sent: they are the first ones of
-- those behind `sent`, and all of them, up to a graceful close, exactly if it returned no error.
abbrev pub IsRelay : {A : Type 0} → List A → List A → RpcError → Option RpcError × List A → Type 0
IsRelay {A} sent messages ending r =
    ((rest : List A) × (r.1 ++ rest ≡ sent ++ messages))
    × ((r.0 ≡ none) ↔ (r.1 ≡ sent ++ messages) × (ending ≡ eof))

module _ {A : Type 0} (send : Sink A) where
  pub relay_step :
      (sent : List A) (a : A) (rest : List A) (e : RpcError)
      → send sent a ≡ none
      → relay send sent (a ∷ rest) e ≡ relay send (sent ++ a ∷ []) rest e
  relay_step sent a rest e h = unfold relay in rw (h, relay)

  pub relay_stop :
      (sent : List A) (a : A) (rest : List A) (e x : RpcError)
      → send sent a ≡ some x
      → relay send sent (a ∷ rest) e ≡ (some x, sent)
  relay_stop sent a rest e x h = unfold relay in rw (h, relay)

  relay-IsRelay :
      (sent messages : List A) (e : RpcError) → IsRelay sent messages e (relay send sent messages e)
  relay-IsRelay sent [] e =
      unfold relay in
      (([], refl), (λ h. (sym (append-nil sent), (ended_iff e).0 h), λ (_, h). (ended_iff e).1 h))
  relay-IsRelay sent (a ∷ rest) e = elim (Option-cases (send sent a)) [
    | inl h ↦
        subst (λ m. IsRelay sent (a ∷ rest) e m) (sym (relay_step sent a rest e h))
          (subst
            (λ m.
              ((w : List A) × ((relay send (sent ++ a ∷ []) rest e).1 ++ w ≡ m))
              × (((relay send (sent ++ a ∷ []) rest e).0 ≡ none)
                  ↔ ((relay send (sent ++ a ∷ []) rest e).1 ≡ m) × (e ≡ eof)))
            (append_assoc sent (a ∷ []) rest) (relay-IsRelay (sent ++ a ∷ []) rest e))
    | inr (x, h) ↦
        subst (λ m. IsRelay sent (a ∷ rest) e m) (sym (relay_stop sent a rest e x h))
          ((a ∷ rest, refl), (λ k. ground arith, λ (k, _). absurd (append_self sent rest a k)))
  ]

module _ {Context Request Response : Type 0} (with_dispatch_default : Context → Context) where
  -- If the broker accepts the call, `List` and `Read` send the first messages of the broker's
  -- stream, in order; they send all of them, and the stream was closed gracefully, exactly if they
  -- return no error.
  pub read-IsRelay :
      (call : Context → Request → Reply (Source Response)) (send : Sink Response) (ctx : Context)
      (req : Request) (proxy : Source Response)
      → call (with_dispatch_default ctx) req ≡ answer proxy
      → IsRelay [] proxy.messages proxy.ending (list with_dispatch_default call send ctx req)
        × IsRelay [] proxy.messages proxy.ending (read with_dispatch_default call send ctx req)
  read-IsRelay call send ctx req proxy h =
      unfold list read serve in
      (
        rw h (relay-IsRelay send [] proxy.messages proxy.ending),
        rw h (relay-IsRelay send [] proxy.messages proxy.ending),
      )

module _ {Context Claims : Type 0} (metadata : Metadata Context) where
  -- A call is let through exactly if it carries a token, whatever is claimed and for how long: the
  -- gateway compares no label selector with what the token allows.
  pub authorize_lem :
      (ctx : Context) (claims claims' : Claims) (exp exp' : ℕ)
      → (((out : Context) × (authorize metadata ctx claims exp ≡ answer out))
          ↔ (metadata.get ctx (codes "authorization") ≢ []))
        × (authorize metadata ctx claims exp ≡ authorize metadata ctx claims' exp')
  unfolding authorize
  authorize_lem ctx claims claims' exp exp' =
      (tokens (metadata.get ctx (codes "authorization")), refl)
    where
      tokens :
          (l : List Text)
          → ((out : Context) × ((elim l [
            | [] ↦ failure (failed (codes "missing required Authorization header"))
            | token ∷ _ ↦ answer (metadata.append_to_outgoing ctx (codes "authorization") token)
          ])
                ≡ answer out))
            ↔ (l ≢ [])
      tokens [] = (λ (out, h). ground arith, λ h. absurd (h refl))
      tokens (t ∷ l) = (
        λ h k. ground arith,
        λ h. (metadata.append_to_outgoing ctx (codes "authorization") t, refl),
      )
