-- ===== src/Gateway.antt =====
-- The gRPC side of the gateway: journal_server.go and shard_server.go. Contexts, their metadata and
-- the clients of the brokers are library code, and parameters.
pub mod Authorizer
pub mod Relay
pub mod Append
pub mod Shards
pub mod Rounds
pub mod Laws
use data_plane_gateway.Prelude.{Option, none, some, List}
use data_plane_gateway.Text.{Text}

-- io.EOF, and every other error.
pub data RpcError : Type 0 where
  eof : RpcError
  failed : Text → RpcError

-- A call that returns a value or an error.
pub data Reply {ℓ} (A : Type ℓ) : Type ℓ where
  answer : A → Reply A
  failure : RpcError → Reply A

-- What the calls of `Recv` return in turn, up to the error that ends them.
pub record Source {ℓ} (A : Type ℓ) : Type ℓ where
  pub messages : List A
  pub ending : RpcError

-- `Send` after some messages that were sent: its error, if any.
abbrev pub Sink {ℓ} : Type ℓ → Type ℓ
Sink A = List A → A → Option RpcError

-- io.EOF is a graceful close.
unfoldable pub ended : RpcError → Option RpcError
ended eof = none
ended (failed m) = some (failed m)
