-- ===== src/Gateway/Append.antt =====
-- `JournalProxy.Append` of journal_server.go.
pub mod Laws
pub mod Forwarded
use data_plane_gateway.Prelude.{Option, none, some, List, [], ◌∷◌, ◌++◌}
use data_plane_gateway.Text.{Text, codes}
use data_plane_gateway.Gateway.{RpcError, eof, failed, Reply, answer, failure, Source, Sink, ended}

pub data Capability : Type 0 where
  capability_append : Capability

-- pb.Claims, with the labels that its selector includes.
pub record Claims : Type 0 where
  pub capability : Capability
  pub include : List (Text × Text)

-- The client's side of the stream of an append.
pub record AppendStream (Request Response : Type 0) : Type 0 where
  pub send : Sink Request
  pub close_and_recv : List Request → Reply Response

-- What an append did: the error that it returned, the requests that the broker was sent, and the
-- response that the client was sent.
pub record Appended (Request Response : Type 0) : Type 0 where
  pub error : Option RpcError
  pub forwarded : List Request
  pub response : Option Response

module _ {Request Response : Type 0} (proxy : AppendStream Request Response) where
  -- The loop: `Send` of a request, then `Recv` of the next one.
  unfoldable pub forward :
      List Request → Request → List Request → RpcError → Option RpcError × List Request
  forward sent req [] ending = elim (proxy.send sent req) [
    | some err ↦ (some err, sent)
    | none ↦ (ended ending, sent ++ req ∷ [])
  ]
  forward sent req (r ∷ rest) ending = elim (proxy.send sent req) [
    | some err ↦ (some err, sent)
    | none ↦ forward (sent ++ req ∷ []) r rest ending
  ]

  -- CloseAndRecv, then SendAndClose.
  unfoldable pub finish : (Response → Option RpcError) → List Request → Appended Request Response
  finish send_and_close sent = elim (proxy.close_and_recv sent) [
    | failure err ↦ record { error = some err; forwarded = sent; response = none }
    | answer resp ↦ elim (send_and_close resp) [
      | some err ↦ record { error = some err; forwarded = sent; response = none }
      | none ↦ record { error = none; forwarded = sent; response = some resp }
    ]
  ]

  -- From the first request on, when the broker's stream is open.
  unfoldable pub proceed :
      (Response → Option RpcError) → Request → List Request → RpcError → Appended Request Response
  proceed send_and_close req rest ending =
      let (error, sent) = forward [] req rest ending in
      elim error [
        | some err ↦ record { error = some err; forwarded = sent; response = none }
        | none ↦ finish send_and_close sent
      ]

-- The claims of an append: to append to the journal of its first request.
unfoldable pub append_claims {ℓ} : {Request : Type ℓ} → (Request → Text) → Request → Claims
append_claims journal req = record {
  capability = capability_append;
  include = (codes "name", journal req) ∷ [];
}

module _ {Context Request Response : Type 0} (journal : Request → Text)
    (with_claims : Context → Claims → Context) (with_dispatch_default : Context → Context) where
  unfoldable pub append :
      (Context → Reply (AppendStream Request Response))
      → (Response → Option RpcError)
      → Context
      → Source Request
      → Appended Request Response
  append jc_append send_and_close ctx stream = elim stream.messages [
    | [] ↦ record { error = some stream.ending; forwarded = []; response = none }
    | req ∷ rest ↦
        elim (jc_append (with_dispatch_default (with_claims ctx (append_claims journal req)))) [
          | failure err ↦ record { error = some err; forwarded = []; response = none }
          | answer proxy ↦ proceed proxy send_and_close req rest stream.ending
        ]
  ]
