-- ===== src/Gateway/Authorizer.antt =====
-- `PassThroughAuthorizer` of journal_server.go.
use data_plane_gateway.Prelude.{ℕ, List, [], ◌∷◌}
use data_plane_gateway.Text.{Text, codes}
use data_plane_gateway.Gateway.{failed, Reply, answer, failure}

-- google.golang.org/grpc/metadata: the values of a key of an incoming call, and the context with
-- one more pair for the outgoing calls.
pub record Metadata (Context : Type 0) : Type 0 where
  pub get : Context → Text → List Text
  pub append_to_outgoing : Context → Text → Text → Context

module _ {Context Claims : Type 0} (metadata : Metadata Context) where
  unfoldable pub authorize : Context → Claims → ℕ → Reply Context
  authorize ctx claims exp = elim (metadata.get ctx (codes "authorization")) [
    | [] ↦ failure (failed (codes "missing required Authorization header"))
    | token ∷ _ ↦ answer (metadata.append_to_outgoing ctx (codes "authorization") token)
  ]
