-- ===== src/ShardClient/Requests.antt =====
-- The requests of client/src/shard_client.ts, as the gateway is sent them.
use data_plane_gateway.Prelude.{◌≡◌, refl, arith, inl, inr, none, some, List, [], ◌∷◌, ◌++◌}
use data_plane_gateway.Text.{Text, codes, text_eq}
use data_plane_gateway.Js.{Outcome-cases, array_value}
use data_plane_gateway.Json.{Json, str, obj, field, end, texts, member, lookup, opt, encode_texts}
use data_plane_gateway.Json.Parse.{parse}
use data_plane_gateway.Json.RoundTrip.Values.{IsJson, AreMembers}
use data_plane_gateway.Json.RoundTrip.Whole.{parse-stringify}
use data_plane_gateway.Json.RoundTrip.Encoded.{IsText16}
use data_plane_gateway.Result
use data_plane_gateway.Result.{new_ok, new_err, present}
use data_plane_gateway.Util.Fetch.{
  Request, Network, response_value, failure_value, refused, raised, fetch, post, settle, do_fetch,
  body_json, from_response,
}
use data_plane_gateway.Util.Fetch.Laws.{settle-refused}
use data_plane_gateway.Util.Fetch.Quiet.{
  IsQuiet, from_response-IsQuiet, Fetched-cases, bind-IsQuiet,
}
use data_plane_gateway.Gen.Consumer.Messages.{encode_consumer_stat_request}
use data_plane_gateway.Selector.Calls.{IsWellFormed}
use data_plane_gateway.Selector.Posted.{Posts, Posts_lem, AreLabels16}
use data_plane_gateway.Selector.Shard.{ShardSelector}
use data_plane_gateway.ShardClient.{
  ShardClient, list_url, list_body, list, shards, stat_url, stat_body, stat,
}
use data_plane_gateway.ShardClient.Laws.{shard_request, stat_request}

shards-IsQuiet : (listed : Json) → IsQuiet (shards listed)
unfolding shards
shards-IsQuiet listed sent = elim (Outcome-cases (member listed (codes "shards"))) [
  | inl (found, h) ↦ rw h refl
  | inr (e, h) ↦ rw h refl
]

-- A map whose strings hold code units of 16 bits and whose keys are not repeated.
abbrev pub IsMap16 : List (Text × Text) → Type 0
IsMap16 [] = Unit
IsMap16 ((k, s) ∷ l) = IsText16 k × IsText16 s × (lookup k (texts l) ≡ none) × IsMap16 l

texts-AreMembers : (l : List (Text × Text)) → IsMap16 l → AreMembers (texts l)
unfolding AreMembers IsJson
texts-AreMembers [] h = tt
texts-AreMembers ((k, s) ∷ l) (hk, hs, n, h) = (hk, hs, n, texts-AreMembers l h)

-- { shard, readThrough }
abbrev pub stat_json : Text → List (Text × Text) → Json
stat_json shard read_through =
    obj (
      field (codes "shard") (str shard)
        (field (codes "readThrough") (obj (texts read_through)) end))

stat_body_lem :
    (shard : Text) (read_through : List (Text × Text))
    → stat_body shard read_through ≡ stat_json shard read_through
unfolding stat_body encode_consumer_stat_request opt encode_texts
stat_body_lem shard read_through = refl

stat_json-IsJson :
    (shard : Text) (read_through : List (Text × Text))
    → IsText16 shard
    → IsMap16 read_through
    → IsJson (stat_json shard read_through)
unfolding IsJson AreMembers lookup text_eq
stat_json-IsJson shard read_through hs hr =
    (ground arith, hs, refl, (ground arith, texts-AreMembers read_through hr, refl, tt))

module _ (network : Network) (this : ShardClient) (sent : List Request) where
  module _ (include exclude : ShardSelector) where
    shard_list-sent :
        (list network this include exclude sent).1
        ≡ sent ++ shard_request network this include exclude sent ∷ []
    unfolding list do_fetch fetch settle Result.ok Result.unwrap Result.unwrap_err new_ok new_err
        present
    shard_list-sent =
        elim (Fetched-cases (network sent (shard_request network this include exclude sent))) [
          | inl (r, h, k) ↦ elim (Outcome-cases (body_json r.body)) [
            | inl (b, l) ↦ rw (h, k, l) (bind-IsQuiet (shards b) _ (shards-IsQuiet b) sent')
            | inr (e, l) ↦ rw (h, k, l) refl
          ]
          | inr (inl (r, h, k)) ↦
              rw (h, settle-refused r k)
                (bind-IsQuiet (from_response (refused r)) _ (from_response-IsQuiet (refused r))
                  sent')
          | inr (inr (e, h)) ↦
              rw h
                (bind-IsQuiet (from_response (raised e)) _ (from_response-IsQuiet (raised e)) sent')
        ]
      where
        sent' : List Request
        sent' = sent ++ shard_request network this include exclude sent ∷ []

    -- Whatever the network answers, `list` sends one request, whether it returns or throws: a POST
    -- to its URL, from whose body the labels of both selectors are read, each as often, in the order
    -- by name, then by value. The selectors are well formed, and their strings hold code units of 16
    -- bits.
    pub shard_list-Posts :
        IsWellFormed include
        → IsWellFormed exclude
        → AreLabels16 include
        → AreLabels16 exclude
        → (r : Request) × ((list network this include exclude sent).1 ≡ sent ++ r ∷ [])
          × (r.url ≡ list_url this)
          × (r.method ≡ codes "POST")
          × Posts include exclude r.body
    unfolding post list_body
    shard_list-Posts wi we ui ue = (
      shard_request network this include exclude sent,
      shard_list-sent,
      refl,
      refl,
      Posts_lem include exclude wi we ui ue,
    )

  module _ (shard : Text) (read_through : List (Text × Text)) where
    stat-sent :
        (stat network this shard read_through sent).1
        ≡ sent ++ stat_request network this shard read_through sent ∷ []
    unfolding stat do_fetch fetch settle Result.ok Result.unwrap Result.unwrap_err new_ok new_err
        present
    stat-sent =
        elim (Fetched-cases (network sent (stat_request network this shard read_through sent))) [
          | inl (r, h, k) ↦ elim (Outcome-cases (body_json r.body)) [
            | inl (b, l) ↦ rw (h, k, l) refl
            | inr (e, l) ↦ rw (h, k, l) refl
          ]
          | inr (inl (r, h, k)) ↦
              rw (h, settle-refused r k)
                (bind-IsQuiet (from_response (refused r)) _ (from_response-IsQuiet (refused r))
                  sent')
          | inr (inr (e, h)) ↦
              rw h
                (bind-IsQuiet (from_response (raised e)) _ (from_response-IsQuiet (raised e)) sent')
        ]
      where
        sent' : List Request
        sent' = sent ++ stat_request network this shard read_through sent ∷ []

    -- Whatever the network answers, `stat` sends one request, whether it returns or throws: a POST
    -- to its URL, from whose body the name of the shard and the map of journals to offsets are read
    -- as they are. Strings hold code units of 16 bits, and no journal is repeated.
    pub stat_posts :
        IsText16 shard
        → IsMap16 read_through
        → (r : Request) × ((stat network this shard read_through sent).1 ≡ sent ++ r ∷ [])
          × (r.url ≡ stat_url this)
          × (r.method ≡ codes "POST")
          × (parse r.body ≡ some (stat_json shard read_through))
    unfolding post
    stat_posts hs hr = (
      stat_request network this shard read_through sent,
      stat-sent,
      refl,
      refl,
      rw (stat_body_lem shard read_through) (
          parse-stringify (stat_json shard read_through)
            (stat_json-IsJson shard read_through hs hr)),
    )
