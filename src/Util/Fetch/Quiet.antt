-- ===== src/Util/Fetch/Quiet.antt =====
-- Parts of the methods of client/src that send no request.
use data_plane_gateway.Prelude.{
  ◌≡◌, refl, ◌⊎◌, inl, inr, true, false, Bool-cases, List, [], ◌∷◌, ◌++◌,
}
use data_plane_gateway.Text.{Text, codes}
use data_plane_gateway.Js.{Outcome, Thrown, Outcome-cases}
use data_plane_gateway.Json.{Json, member, member_of}
use data_plane_gateway.Util.Fetch.{
  Request, Response, Fetched, resolved, rejected, Network, Action, ◌>>=◌, lift, Failure,
  failure_json, fetch, post, do_fetch, from_response, from_stream_response,
}

abbrev pub IsQuiet {ℓ} : {A : Type ℓ} → Action A → Type 0
IsQuiet m = (sent : List Request) → (m sent).1 ≡ sent

-- What is returned behind an action that sends nothing sends nothing.
pub bind-IsQuiet {ℓ κ} :
    {A : Type ℓ} {B : Type κ} (m : Action A) (f : A → Outcome B)
    → IsQuiet m
    → IsQuiet (m >>= λ a. lift (f a))
bind-IsQuiet m f h sent = elim (Outcome-cases (m sent).0) [
  | inl (a, k) ↦ rw k (h sent)
  | inr (e, k) ↦ rw k (h sent)
]

pub from_response-IsQuiet : (f : Failure) → IsQuiet (from_response f)
unfolding from_response
from_response-IsQuiet f sent = elim (Outcome-cases (failure_json f)) [
  | inl (body, h) ↦ elim (Outcome-cases (member body (codes "code"))) [
    | inl (status, k) ↦ rw (h, k) refl
    | inr (e, k) ↦ rw (h, k) refl
  ]
  | inr (e, h) ↦ rw h refl
]

pub from_stream_response-IsQuiet : (f : Failure) → IsQuiet (from_stream_response f)
unfolding from_stream_response
from_stream_response-IsQuiet f sent = elim (Outcome-cases (failure_json f)) [
  | inl (body, h) ↦ elim (Outcome-cases (member body (codes "error"))) [
    | inl (error, k) ↦ elim (Outcome-cases (member_of error (codes "httpStatus"))) [
      | inl (status, l) ↦ rw (h, k, l) refl
      | inr (e, l) ↦ rw (h, k, l) refl
    ]
    | inr (e, k) ↦ rw (h, k) refl
  ]
  | inr (e, h) ↦ rw h refl
]

pub do_fetch_sent :
    (network : Network) (url auth_token : Text) (body : Json) (sent : List Request)
    → (do_fetch network url auth_token body sent).1 ≡ sent ++ post url auth_token body ∷ []
unfolding do_fetch fetch
do_fetch_sent network url auth_token body sent = refl

pub Fetched-cases :
    (f : Fetched)
    → ((r : Response) × (f ≡ resolved r) × (r.ok ≡ true))
      ⊎ ((r : Response) × (f ≡ resolved r) × (r.ok ≡ false))
      ⊎ ((e : Thrown) × (f ≡ rejected e))
Fetched-cases (rejected e) = inr (inr (e, refl))
Fetched-cases (resolved r) = elim (Bool-cases r.ok) [
  | inl h ↦ inl (r, refl, h)
  | inr h ↦ inr (inl (r, refl, h))
]
