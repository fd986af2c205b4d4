-- ===== src/ShardClient/Rejections.antt =====
-- With what `list` and `stat` of client/src/shard_client.ts are rejected.
use data_plane_gateway.Prelude.{◌≡◌, refl, inl, inr, List, [], ◌∷◌, ◌++◌}
use data_plane_gateway.Text.{Text, codes}
use data_plane_gateway.Js.{Thrown, type_error, thrown, Outcome-cases, array_value}
use data_plane_gateway.Json.{Json, member}
use data_plane_gateway.Json.Stringify.{json_value}
use data_plane_gateway.Result
use data_plane_gateway.Result.{new_ok, new_err, present}
use data_plane_gateway.Util.Fetch.{
  Request, Network, response_value, failure_value, resolved, fetch, do_fetch, body_json,
}
use data_plane_gateway.Util.Fetch.Laws.{settle-ok, settle-refused, settle-raised}
use data_plane_gateway.Util.Fetch.Quiet.{Fetched-cases}
use data_plane_gateway.Util.Fetch.Rejections.{
  Throws, Throws-thrown, refused_then, raised_then, IsRejection, member-Throws, map_array-Throws,
  then_returned, response-Throws,
}
use data_plane_gateway.Selector.Shard.{ShardSelector}
use data_plane_gateway.ShardClient.{ShardClient, list, shards, to_shard, stat}
use data_plane_gateway.ShardClient.Laws.{shard_request, stat_request}

to_shard-Throws : (P : Thrown → Type 0) → P type_error → (s : Json) → Throws P (to_shard s)
unfolding to_shard
to_shard-Throws P t s = elim (Outcome-cases (member s (codes "spec"))) [
  | inr (e, k) ↦ rw (k, to_shard) (Throws-thrown P (member-Throws P t s (codes "spec")) k)
  | inl (spec, k) ↦ elim (Outcome-cases (member s (codes "status"))) [
    | inr (e, i) ↦
        rw (k, to_shard, i, to_shard) (Throws-thrown P (member-Throws P t s (codes "status")) i)
    | inl (status, i) ↦ rw (k, to_shard, i, to_shard) tt
  ]
]

shards-Throws :
    (P : Thrown → Type 0) (listed : Json) (sent : List Request)
    → P type_error
    → Throws P (shards listed sent).0
unfolding shards
shards-Throws P listed sent t = elim (Outcome-cases (member listed (codes "shards"))) [
  | inr (e, k) ↦ rw k (Throws-thrown P (member-Throws P t listed (codes "shards")) k)
  | inl (found, k) ↦ rw k (map_array-Throws P to_shard found t (to_shard-Throws P t))
]

module _ (network : Network) (this : ShardClient) (sent : List Request) where
  shard_list-Throws :
      (include exclude : ShardSelector)
      → Throws
          (IsRejection (network sent (shard_request network this include exclude sent)))
          (list network this include exclude sent).0
  unfolding list do_fetch fetch Result.ok Result.unwrap Result.unwrap_err new_ok new_err present
  shard_list-Throws include exclude =
      elim (Fetched-cases (network sent (shard_request network this include exclude sent))) [
        | inl (r, h, k) ↦ elim (Outcome-cases (body_json r.body)) [
          | inl (b, l) ↦
              rw (h, settle-ok r k, l)
                (then_returned (IsRejection (resolved r)) (shards b) _ sent'
                  (shards-Throws (IsRejection (resolved r)) b sent' (inl refl)))
          | inr (e, l) ↦
              rw (h, settle-ok r k, l)
                (Throws-thrown (IsRejection (resolved r)) (response-Throws r) l)
        ]
        | inr (inl (r, h, k)) ↦ rw (h, settle-refused r k) (refused_then _ sent' r)
        | inr (inr (e, h)) ↦ rw (h, settle-raised e) (raised_then _ sent' e)
      ]
    where
      sent' : List Request
      sent' = sent ++ shard_request network this include exclude sent ∷ []

  stat-Throws :
      (shard : Text) (read_through : List (Text × Text))
      → Throws
          (IsRejection (network sent (stat_request network this shard read_through sent)))
          (stat network this shard read_through sent).0
  unfolding stat do_fetch fetch Result.ok Result.unwrap Result.unwrap_err new_ok new_err present
  stat-Throws shard read_through =
      elim (Fetched-cases (network sent (stat_request network this shard read_through sent))) [
        | inl (r, h, k) ↦ elim (Outcome-cases (body_json r.body)) [
          | inl (b, l) ↦ rw (h, settle-ok r k, l) tt
          | inr (e, l) ↦
              rw (h, settle-ok r k, l)
                (Throws-thrown (IsRejection (resolved r)) (response-Throws r) l)
        ]
        | inr (inl (r, h, k)) ↦ rw (h, settle-refused r k) (refused_then _ sent' r)
        | inr (inr (e, h)) ↦ rw (h, settle-raised e) (raised_then _ sent' e)
      ]
    where
      sent' : List Request
      sent' = sent ++ stat_request network this shard read_through sent ∷ []

  -- Whatever the network answers, `list` and `stat` are rejected only with a `TypeError`, with a
  -- `SyntaxError`, or with the error with which the body of the response fails, and if there is no
  -- response, with a `TypeError` only.
  pub shard_list-IsRejection :
      (include exclude : ShardSelector) (e : Thrown)
      → (list network this include exclude sent).0 ≡ thrown e
      → IsRejection (network sent (shard_request network this include exclude sent)) e
  shard_list-IsRejection include exclude e h = Throws-thrown _ (shard_list-Throws include exclude) h

  pub stat-IsRejection :
      (shard : Text) (read_through : List (Text × Text)) (e : Thrown)
      → (stat network this shard read_through sent).0 ≡ thrown e
      → IsRejection (network sent (stat_request network this shard read_through sent)) e
  stat-IsRejection shard read_through e h = Throws-thrown _ (stat-Throws shard read_through) h
