-- ===== src/Util/Fetch/Laws.antt =====
-- What `doFetch` sends and returns, and what `ResponseError` makes of a failure.
use data_plane_gateway.Prelude.{ℕ, flatten, ◌≡◌, refl, true, false, none, some, List}
use data_plane_gateway.Text.{Text, codes}
use data_plane_gateway.Js.{returned, thrown, Thrown, type_error}
use data_plane_gateway.Json.{Json, obj, Fields, member, lookup, member_of}
use data_plane_gateway.Json.Stringify.{stringify}
use data_plane_gateway.Json.RoundTrip.Values.{IsJson}
use data_plane_gateway.Json.RoundTrip.Whole.{parse-stringify}
use data_plane_gateway.Utf8.{decode}
use data_plane_gateway.Streams.{closed}
use data_plane_gateway.Util.Fetch.{body_json, parsed}
use data_plane_gateway.Result.{new_ok, new_err}
use data_plane_gateway.Util.Fetch.{
  Request, Response, resolved, rejected, Failure, refused, raised, response_value, failure_value,
  settle, failure_json, from_response, from_stream_response,
}

pub settle-ok : (r : Response) → r.ok ≡ true → settle (resolved r) ≡ new_ok r
unfolding settle
settle-ok r h = rw h

pub settle-refused : (r : Response) → r.ok ≡ false → settle (resolved r) ≡ new_err (refused r)
unfolding settle
settle-refused r h = rw h

pub settle-raised : (e : Thrown) → settle (rejected e) ≡ new_err (raised e)
unfolding settle
settle-raised e = refl

-- For a failure whose body is a JSON object, the error of a unary call has the object as its body
-- and its `code` as its status.
pub from_response_lem :
    (f : Failure) (fields : Fields) (sent : List Request)
    → failure_json f ≡ returned (obj fields)
    → from_response f sent ≡ (
      returned (record {
        body = some (obj fields);
        response = f;
        status = lookup (codes "code") fields;
      }),
      sent,
    )
from_response_lem f fields sent h = unfold from_response member in rw h

-- For a failure whose body is an object with an object as its member `error`, the error of a
-- stream has that member as its body and the `httpStatus` in it as its status.
pub from_stream_response_lem :
    (f : Failure) (fields inner : Fields) (sent : List Request)
    → failure_json f ≡ returned (obj fields)
    → lookup (codes "error") fields ≡ some (obj inner)
    → from_stream_response f sent ≡ (
      returned (record {
        body = some (obj inner);
        response = f;
        status = lookup (codes "httpStatus") inner;
      }),
      sent,
    )
from_stream_response_lem f fields inner sent h k =
    unfold from_stream_response member member_of in rw (h, k)

-- A failure whose body is an object without the member `error` gives no error of a stream: the
-- promise is rejected with a `TypeError`.
pub from_stream_response_missing :
    (f : Failure) (fields : Fields) (sent : List Request)
    → failure_json f ≡ returned (obj fields)
    → lookup (codes "error") fields ≡ none
    → from_stream_response f sent ≡ (thrown type_error, sent)
from_stream_response_missing f fields sent h k =
    unfold from_stream_response member member_of in rw (h, k)

-- What `fetch` throws is no response: the error of a unary call fails with a `TypeError` on it.
pub from_response-raised :
    (e : Thrown) (sent : List Request) → from_response (raised e) sent ≡ (thrown type_error, sent)
unfolding from_response failure_json
from_response-raised e sent = refl

pub from_stream_response-raised :
    (e : Thrown) (sent : List Request)
    → from_stream_response (raised e) sent ≡ (thrown type_error, sent)
unfolding from_stream_response failure_json
from_stream_response-raised e sent = refl

-- A body that closes and whose text is what is printed of a value is that value.
pub body_json-printed :
    (chunks : List (List ℕ)) (v : Json)
    → IsJson v
    → decode (flatten chunks) ≡ stringify v
    → body_json (some (record { chunks = chunks; ending = closed })) ≡ returned v
body_json-printed chunks v h k = unfold body_json parsed in rw (k, parse-stringify v h)
