-- ===== src/Schedule/System.antt =====
-- A part of a pipe that runs by itself, seen by whoever reads from it.
use data_plane_gateway.Prelude.{ℕ, ◌<◌, ◌≡◌, ◌⊎◌, [], ◌∷◌}
use data_plane_gateway.Streams.{Ending, Stream, prepend}
use data_plane_gateway.Schedule.Cuts.{Cuts}

-- `Step` is a move inside, `Pull` hands a chunk to the reader, and `Closes` tells the reader of the
-- end. `rest` is what the part would still deliver in one turn, and `moves` bounds its moves.
pub record System (A : Type 0) : Type 1 where
  pub State : Type 0
  pub Step : State → State → Type 0
  pub Pull : State → A → State → Type 0
  pub Closes : State → Ending → Type 0
  pub rest : State → Stream A
  pub moves : State → ℕ

-- What every part keeps: moves inside change nothing of what is still to be delivered, but that an
-- error may cut it; there is always a move until the end; and the moves come to an end.
pub record IsSound {A : Type 0} (sys : System A) : Type 0 where
  pub Step-Cuts : (x y : sys.State) → sys.Step x y → Cuts (sys.rest x) (sys.rest y)
  pub Pull-rest :
      (x : sys.State) (a : A) (y : sys.State)
      → sys.Pull x a y
      → sys.rest x ≡ prepend (a ∷ []) (sys.rest y)
  pub Closes-rest :
      (x : sys.State) (e : Ending)
      → sys.Closes x e
      → sys.rest x ≡ record { chunks = []; ending = e }
  pub Step-moves : (x y : sys.State) → sys.Step x y → sys.moves y < sys.moves x
  pub Pull-moves :
      (x : sys.State) (a : A) (y : sys.State) → sys.Pull x a y → sys.moves y < sys.moves x
  pub progress :
      (x : sys.State)
      → ((e : Ending) × sys.Closes x e)
        ⊎ ((a : A) × (y : sys.State) × sys.Pull x a y)
        ⊎ ((y : sys.State) × sys.Step x y)
