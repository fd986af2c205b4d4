-- ===== src/Util/Fetch/Rejections.antt =====
-- With what the methods of client/src can be rejected.
use data_plane_gateway.Prelude.{
  ℕ, flatten, ◌≡◌, refl, subst, ◌⊎◌, inl, inr, Option, none, some, List, [], ◌∷◌,
}
use data_plane_gateway.Text.{Text, codes}
use data_plane_gateway.Js.{
  Thrown, type_error, syntax_error, Outcome, returned, thrown, Outcome-cases, map_outcome,
}
use data_plane_gateway.Json.{
  Json, null, bool, num, str, arr, obj, items, member, member_of, map_array,
}
use data_plane_gateway.Json.Parse.{parse}
use data_plane_gateway.Utf8.{decode}
use data_plane_gateway.Streams.{Ending, closed, errored, Stream}
use data_plane_gateway.Util.Fetch.{
  Request, Response, Fetched, resolved, rejected, Action, ◌>>=◌, lift, Failure, refused, raised,
  parsed, body_json, failure_json, ResponseError, from_response, from_stream_response,
}

-- What is thrown, if anything, satisfies `P`.
abbrev pub Throws {ℓ} : {A : Type ℓ} → (Thrown → Type 0) → Outcome A → Type 0
Throws P (returned a) = Unit
Throws P (thrown e) = P e

pub Throws-thrown {ℓ} :
    {A : Type ℓ} (P : Thrown → Type 0) {o : Outcome A} {e : Thrown}
    → Throws P o
    → o ≡ thrown e
    → P e
Throws-thrown P h k = subst (Throws P) k h

-- A body fails with an error.
abbrev pub FailsWith : Option (Stream (List ℕ)) → Thrown → Type 0
FailsWith body e = (s : Stream (List ℕ)) × (body ≡ some s) × (s.ending ≡ errored e)

-- What an answer of the network can make a method throw: a `TypeError`, a `SyntaxError` of a body
-- that is no JSON, or the error with which the body fails; and a `TypeError` only, if there is no
-- response.
abbrev pub IsRejection : Fetched → Thrown → Type 0
IsRejection (resolved r) e = (e ≡ type_error) ⊎ (e ≡ syntax_error) ⊎ FailsWith r.body e
IsRejection (rejected x) e = e ≡ type_error

module _ (P : Thrown → Type 0) where
  pub member-Throws : P type_error → (v : Json) (k : Text) → Throws P (member v k)
  unfolding member
  member-Throws h null k = h
  member-Throws h (bool b) k = tt
  member-Throws h (num n) k = tt
  member-Throws h (str t) k = tt
  member-Throws h (arr vs) k = tt
  member-Throws h (obj fs) k = tt

  pub member_of-Throws : P type_error → (v : Option Json) (k : Text) → Throws P (member_of v k)
  unfolding member_of
  member_of-Throws h none k = h
  member_of-Throws h (some v) k = member-Throws h v k

  map_outcome-Throws {ℓ} :
      {A : Type ℓ} (f : Json → Outcome A) (l : List Json)
      → ((v : Json) → Throws P (f v))
      → Throws P (map_outcome f l)
  map_outcome-Throws f [] h = tt
  map_outcome-Throws f (v ∷ l) h = elim (Outcome-cases (f v)) [
    | inr (e, k) ↦ rw k (Throws-thrown P (h v) k)
    | inl (a, k) ↦ elim (Outcome-cases (map_outcome f l)) [
      | inr (e, i) ↦ rw (k, i) (Throws-thrown P (map_outcome-Throws f l h) i)
      | inl (b, i) ↦ rw (k, i) tt
    ]
  ]

  pub map_array-Throws {ℓ} :
      {A : Type ℓ} (f : Json → Outcome A) (v : Option Json)
      → P type_error
      → ((v : Json) → Throws P (f v))
      → Throws P (map_array f v)
  unfolding map_array
  map_array-Throws f none h k = h
  map_array-Throws f (some null) h k = h
  map_array-Throws f (some (bool b)) h k = h
  map_array-Throws f (some (num n)) h k = h
  map_array-Throws f (some (str t)) h k = h
  map_array-Throws f (some (arr vs)) h k = map_outcome-Throws f (items vs) k
  map_array-Throws f (some (obj fs)) h k = h

  parsed-Throws : P syntax_error → (v : Option Json) → Throws P (parsed v)
  unfolding parsed
  parsed-Throws h none = h
  parsed-Throws h (some v) = tt

  pub body_json-Throws :
      P syntax_error
      → (body : Option (Stream (List ℕ))) → ((e : Thrown) → FailsWith body e → P e)
      → Throws P (body_json body)
  unfolding body_json
  body_json-Throws h none k = parsed-Throws h (parse [])
  body_json-Throws h (some s) k = by_ending s.ending refl
    where
      by_ending :
          (e : Ending)
          → s.ending ≡ e
          → Throws P (elim e as (λ x. Outcome Json) [
            | closed ↦ parsed (parse (decode (flatten s.chunks)))
            | errored x ↦ thrown x
          ])
      by_ending closed i = parsed-Throws h (parse (decode (flatten s.chunks)))
      by_ending (errored x) i = k x (s, refl, i)

  pub from_response-Throws :
      P type_error
      → (f : Failure) (sent : List Request) → Throws P (failure_json f)
      → Throws P (from_response f sent).0
  unfolding from_response
  from_response-Throws t f sent h = elim (Outcome-cases (failure_json f)) [
    | inr (e, k) ↦ rw k (Throws-thrown P h k)
    | inl (body, k) ↦ elim (Outcome-cases (member body (codes "code"))) [
      | inr (e, i) ↦ rw (k, i) (Throws-thrown P (member-Throws t body (codes "code")) i)
      | inl (status, i) ↦ rw (k, i) tt
    ]
  ]

  pub from_stream_response-Throws :
      P type_error
      → (f : Failure) (sent : List Request) → Throws P (failure_json f)
      → Throws P (from_stream_response f sent).0
  unfolding from_stream_response
  from_stream_response-Throws t f sent h = elim (Outcome-cases (failure_json f)) [
    | inr (e, k) ↦ rw k (Throws-thrown P h k)
    | inl (body, k) ↦ elim (Outcome-cases (member body (codes "error"))) [
      | inr (e, i) ↦ rw (k, i) (Throws-thrown P (member-Throws t body (codes "error")) i)
      | inl (error, i) ↦ elim (Outcome-cases (member_of error (codes "httpStatus"))) [
        | inr (e, j) ↦
            rw (k, i, j) (Throws-thrown P (member_of-Throws t error (codes "httpStatus")) j)
        | inl (status, j) ↦ rw (k, i, j) tt
      ]
    ]
  ]

  -- What is returned behind an action throws nothing more.
  pub then_returned {ℓ κ} :
      {A : Type ℓ} {B : Type κ} (m : Action A) (f : A → B) (sent : List Request)
      → Throws P (m sent).0
      → Throws P ((m >>= λ a. lift (returned (f a))) sent).0
  then_returned m f sent h = elim (Outcome-cases (m sent).0) [
    | inl (a, i) ↦ rw i tt
    | inr (e, i) ↦ rw i (Throws-thrown P h i)
  ]

-- The JSON of a response, whose errors a rejection may be.
pub response-Throws : (r : Response) → Throws (IsRejection (resolved r)) (body_json r.body)
response-Throws r =
    body_json-Throws (IsRejection (resolved r)) (inr (inl refl)) r.body (λ e h. inr (inr h))

pub refused-Throws : (r : Response) → Throws (IsRejection (resolved r)) (failure_json (refused r))
unfolding failure_json
refused-Throws r = response-Throws r

pub raised-Throws : (x : Thrown) → Throws (IsRejection (rejected x)) (failure_json (raised x))
unfolding failure_json
raised-Throws x = refl

-- What the unary calls do with a failure: its error is returned, unless that throws.
module _ {ℓ} {B : Type ℓ} (f : ResponseError → B) (sent : List Request) where
  pub refused_then :
      (r : Response)
      → Throws
          (IsRejection (resolved r))
          ((from_response (refused r) >>= λ a. lift (returned (f a))) sent).0
  refused_then r = then_returned (IsRejection (resolved r)) (from_response (refused r)) f sent (
      from_response-Throws (IsRejection (resolved r)) (inl refl) (refused r) sent
        (refused-Throws r))

  pub raised_then :
      (x : Thrown)
      → Throws
          (IsRejection (rejected x))
          ((from_response (raised x) >>= λ a. lift (returned (f a))) sent).0
  raised_then x =
      then_returned (IsRejection (rejected x)) (from_response (raised x)) f sent
        (from_response-Throws (IsRejection (rejected x)) refl (raised x) sent (raised-Throws x))
