-- ===== src/Util/Fetch.antt =====
-- `doFetch` and `ResponseError` of client/src/util.ts. The network is a parameter: the requests
-- that were sent so far and a request determine what `fetch` does.
pub mod Laws
pub mod Quiet
pub mod Rejections
use data_plane_gateway.Prelude.{
  ℕ, Bool, true, false, Option, none, some, List, [], ◌∷◌, ◌++◌, flatten, if◌then◌else◌,
}
use data_plane_gateway.Text.{Text, codes}
use data_plane_gateway.Js.{Outcome, returned, thrown, Thrown, type_error, syntax_error, Value}
use data_plane_gateway.Json.{Json, member, member_of}
use data_plane_gateway.Json.Stringify.{stringify}
use data_plane_gateway.Json.Parse.{parse}
use data_plane_gateway.Utf8.{decode}
use data_plane_gateway.Result.{Result, new_ok, new_err}
use data_plane_gateway.Streams.{Stream, Ending, closed, errored}

pub record Request : Type 0 where
  pub url : Text
  pub method : Text
  pub headers : List (Text × Text)
  pub body : Text

-- A `Response` of the browser. Its body is a stream of bytes, or `null`.
pub record Response : Type 0 where
  pub ok : Bool
  pub status : ℕ
  pub body : Option (Stream (List ℕ))

pub data Fetched : Type 0 where
  resolved : Response → Fetched
  rejected : Thrown → Fetched

abbrev pub Network : Type 0
Network = List Request → Request → Fetched

-- What an `async` function does: it returns or throws, and it may have sent requests.
abbrev pub Action {ℓ} : Type ℓ → Type ℓ
Action A = List Request → Outcome A × List Request

module _ {ℓ κ} {A : Type ℓ} {B : Type κ} where
  abbrev continue :
      Outcome A → (A → Outcome B × List Request) → List Request → Outcome B × List Request
  continue (returned a) next sent = next a
  continue (thrown e) next sent = (thrown e, sent)

infixl 5 ◌>>=◌
abbrev pub ◌>>=◌ {ℓ κ} : {A : Type ℓ} {B : Type κ} → Action A → (A → Action B) → Action B
◌>>=◌ m f sent = let (r, sent') = m sent in continue r (λ a. f a sent') sent'

abbrev pub lift {ℓ} : {A : Type ℓ} → Outcome A → Action A
lift r sent = (r, sent)

-- What `doFetch` hands to `Result.Err`, which its type calls a `Response`: a response that is not
-- ok, or what `fetch` threw.
pub data Failure : Type 0 where
  refused : Response → Failure
  raised : Thrown → Failure

-- Objects count as true. Those of the browser print as {}.
instance abbrev pub response_value : Value Response
response_value = record { truthy = λ r. true; stringify = λ r. codes "{}" }

instance abbrev pub failure_value : Value Failure
failure_value = record { truthy = λ r. true; stringify = λ r. codes "{}" }

-- fetch(url, init)
unfoldable pub fetch : Network → Request → Action Fetched
fetch network request sent = (returned (network sent request), sent ++ request ∷ [])

-- The request that `doFetch` makes.
unfoldable pub post : Text → Text → Json → Request
unfolding stringify
post url auth_token body = record {
  url = url;
  method = codes "POST";
  headers =
      (codes "Content-Type", codes "application/json")
      ∷ (codes "Authorization", codes "Bearer " ++ auth_token)
      ∷ [];
  body = stringify body;
}

unfoldable pub settle : Fetched → Result Response Failure
unfolding new_ok new_err
settle (resolved response) = if response.ok then new_ok response else new_err (refused response)
settle (rejected e) = new_err (raised e)

unfoldable pub do_fetch : Network → Text → Text → Json → Action (Result Response Failure)
do_fetch network url auth_token body =
    fetch network (post url auth_token body) >>= λ fetched. lift (returned (settle fetched))

unfoldable pub parsed : Option Json → Outcome Json
parsed none = thrown syntax_error
parsed (some v) = returned v

-- response.json()
unfoldable pub body_json : Option (Stream (List ℕ)) → Outcome Json
unfolding parsed parse decode
body_json none = parsed (parse [])
body_json (some s) = elim s.ending [
  | closed ↦ parsed (parse (decode (flatten s.chunks)))
  | errored e ↦ thrown e
]

-- The same call on what `doFetch` hands over: an exception has no method `json`.
unfoldable pub failure_json : Failure → Outcome Json
unfolding body_json
failure_json (refused response) = body_json response.body
failure_json (raised e) = thrown type_error

pub record ResponseError : Type 0 where
  pub body : Option Json
  pub response : Failure
  pub status : Option Json

-- No code of the client prints one.
instance abbrev pub response_error_value : Value ResponseError
response_error_value = record { truthy = λ r. true; stringify = λ r. codes "{}" }

unfoldable pub from_response : Failure → Action ResponseError
from_response response = do
  body ← lift (failure_json response)
  status ← lift (member body (codes "code"))
  lift (returned (record { body = some body; response = response; status = status }))

unfoldable pub from_stream_response : Failure → Action ResponseError
from_stream_response response = do
  body ← lift (failure_json response)
  error ← lift (member body (codes "error"))
  status ← lift (member_of error (codes "httpStatus"))
  lift (returned (record { body = error; response = response; status = status }))
