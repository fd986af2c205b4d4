-- ===== src/Tests/Gateway.antt =====
-- Runs of journal_server.go, with contexts that hold the token and the claims of a call.
use data_plane_gateway.Prelude.{ℕ, ◌≡◌, ◌≢◌, ◌↔◌, refl, none, some, List, [], ◌∷◌, Option, arith}
use data_plane_gateway.Text.{Text, codes}
use data_plane_gateway.Gateway.{RpcError, eof, failed, Reply, answer, failure, Source, Sink, ended}
use data_plane_gateway.Gateway.Authorizer.{Metadata, authorize}
use data_plane_gateway.Gateway.Relay.{relay, list, read}
use data_plane_gateway.Gateway.Append.{
  Claims, AppendStream, append, forward, finish, proceed, capability_append,
}
use data_plane_gateway.Gateway.Rounds.{
  rounds, running, returned, receive, rounds_go_on, rounds_return,
}
use data_plane_gateway.Gateway.Laws.{IsRelay, read-IsRelay, authorize_lem}
use data_plane_gateway.Gateway.Append.Laws.{IsAppended, append-IsAppended}

-- A context is the tokens of a call.
abbrev tokens : Metadata (List Text)
tokens = record { get = λ ctx key. ctx; append_to_outgoing = λ ctx key value. value ∷ ctx }

abbrev one_token : List Text
one_token = codes "Bearer x" ∷ []

abbrev no_labels : List Text
no_labels = []

authorize_lem_example :
    (((out : List Text) × (authorize tokens one_token no_labels 5 ≡ answer out)) ↔ (one_token ≢ []))
    × (authorize tokens one_token no_labels 5 ≡ authorize tokens one_token (codes "name" ∷ []) 6)
authorize_lem_example = authorize_lem tokens one_token no_labels (codes "name" ∷ []) 5 6

-- A sink that takes one message, and then fails.
abbrev takes_one : Sink ℕ
takes_one [] a = none
takes_one (b ∷ sent) a = some (failed (codes "closed"))

abbrev two_numbers : Source ℕ
two_numbers = record { messages = 1 ∷ 2 ∷ []; ending = eof }

abbrev broker : Unit {0} → ℕ → Reply (Source ℕ)
broker ctx req = answer two_numbers

read-IsRelay_example :
    IsRelay [] (1 ∷ 2 ∷ []) eof (list (λ c. c) broker takes_one tt 0)
    × IsRelay [] (1 ∷ 2 ∷ []) eof (read (λ c. c) broker takes_one tt 0)
read-IsRelay_example = read-IsRelay (λ c. c) broker takes_one tt 0 two_numbers refl

abbrev takes_all : Sink ℕ
takes_all sent a = none

-- The broker answers with the number of the last request.
abbrev appending : AppendStream ℕ ℕ
appending = record {
  send = takes_all;
  close_and_recv = λ requests. elim requests [ [] ↦ failure eof | a ∷ _ ↦ answer a ];
}

abbrev journal_of : ℕ → Text
journal_of a = codes "a/b"

abbrev accept : ℕ → Option RpcError
accept resp = none

abbrev open_append : Claims → Reply (AppendStream ℕ ℕ)
open_append claims = answer appending

abbrev claimed : Claims → Claims → Claims
claimed ctx claims = claims

abbrev no_claims : Claims
no_claims = record { capability = capability_append; include = [] }

append-IsAppended_example : IsAppended appending accept (7 ∷ 8 ∷ []) eof (
    append journal_of claimed
      (λ c. c)
      open_append
      accept
      no_claims
      (record { messages = 7 ∷ 8 ∷ []; ending = eof }))
unfolding append proceed forward finish ended
append-IsAppended_example =
    append-IsAppended journal_of claimed (λ c. c) open_append accept no_claims 7 (8 ∷ []) eof
      appending refl refl

-- A journal whose messages are the numbers.
abbrev numbers : ℕ → Reply ℕ
numbers n = answer n

rounds_go_on_example : rounds takes_all 3 numbers [] ≡ (running, 0 ∷ 1 ∷ 2 ∷ [])
rounds_go_on_example = rounds_go_on takes_all (λ n. n) numbers 3 (λ k. refl) (λ l a. refl)

rounds_return_example :
    rounds takes_one 5 (receive (1 ∷ 2 ∷ []) eof) []
    ≡ (returned (some (failed (codes "closed"))), 1 ∷ [])
unfolding relay
rounds_return_example = rounds_return takes_one (1 ∷ 2 ∷ []) eof 5 (omega arith)
