-- ===== src/Gateway/Relay.antt =====
-- `JournalProxy.List` and `JournalProxy.Read` of journal_server.go, which relay a stream, and the
-- calls of `JournalProxy` that only pass a request on.
use data_plane_gateway.Prelude.{Option, none, some, List, [], ◌∷◌, ◌++◌}
use data_plane_gateway.Text.{codes}
use data_plane_gateway.Gateway.{RpcError, failed, Reply, answer, failure, Source, Sink, ended}

module _ {A : Type 0} (send : Sink A) where
  -- The loop: `Recv`, then `Send`. It returns the error, with the messages that were sent.
  unfoldable pub relay : List A → List A → RpcError → Option RpcError × List A
  relay sent [] ending = (ended ending, sent)
  relay sent (resp ∷ rest) ending = elim (send sent resp) [
    | some err ↦ (some err, sent)
    | none ↦ relay (sent ++ resp ∷ []) rest ending
  ]

  unfoldable pub serve : Reply (Source A) → Option RpcError × List A
  serve (failure err) = (some err, [])
  serve (answer proxy) = relay [] proxy.messages proxy.ending

module _ {Context Request Response : Type 0} (with_dispatch_default : Context → Context) where
  -- The client's `List`, and the stream of the server.
  unfoldable pub list :
      (Context → Request → Reply (Source Response))
      → Sink Response
      → Context
      → Request
      → Option RpcError × List Response
  list jc_list send ctx req = serve send (jc_list (with_dispatch_default ctx) req)

  unfoldable pub read :
      (Context → Request → Reply (Source Response))
      → Sink Response
      → Context
      → Request
      → Option RpcError × List Response
  read jc_read send ctx req = serve send (jc_read (with_dispatch_default ctx) req)

  unfoldable pub list_fragments :
      (Context → Request → Reply Response) → Context → Request → Reply Response
  list_fragments jc_list_fragments ctx req = jc_list_fragments (with_dispatch_default ctx) req

  unfoldable pub apply : (Context → Request → Reply Response) → Context → Request → Reply Response
  apply jc_apply ctx req = jc_apply (with_dispatch_default ctx) req

unfoldable pub replicate : RpcError
replicate = failed (codes "unsupported operation: `Replicate`")
