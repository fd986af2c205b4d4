-- ===== src/Gateway/Append/Forwarded.antt =====
-- What `JournalProxy.Append` of journal_server.go passes on, whether it succeeds or fails.
use data_plane_gateway.Prelude.{◌≡◌, ◌≢◌, ◌↔◌, none, List, ◌++◌}
use data_plane_gateway.Text.{Text}
use data_plane_gateway.Gateway.Append.{Appended}

-- The broker was sent the first requests, in order, and the client was sent a response exactly if no
-- error was returned.
abbrev pub Forwards :
    {Request Response : Type 0} → List Request → Appended Request Response → Type 0
Forwards {Request} requests a =
    ((rest : List Request) × (a.forwarded ++ rest ≡ requests))
    × ((a.error ≡ none) ↔ (a.response ≢ none))
