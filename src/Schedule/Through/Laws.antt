-- ===== src/Schedule/Through/Laws.antt =====
-- A stage is sound behind a part that is sound.
use data_plane_gateway.Prelude.{◌≡◌, refl, ap, ◌∙◌}
use data_plane_gateway.Streams.{Transformer, prepend, pipe_through}
use data_plane_gateway.Schedule.System.{System, IsSound}
use data_plane_gateway.Schedule.Through.{stage_rest, through, stage_start}
use data_plane_gateway.Schedule.Through.Rest.{rest-ended, StageStep-Cuts, StagePull-rest}
use data_plane_gateway.Schedule.Through.Moves.{StageStep-moves, StagePull-moves}
use data_plane_gateway.Schedule.Through.Progress.{stage_progress}

module _ {S A B : Type 0} (t : Transformer S A B) (sys : System A) where
  pub through-IsSound : IsSound sys → IsSound (through t sys)
  through-IsSound sound = record {
    Step-Cuts = StageStep-Cuts t sys sound;
    Pull-rest = StagePull-rest t sys;
    Closes-rest =
        λ x e (q, h). rest-ended t sys x e h ∙ ap (λ l. record { chunks = l; ending = e }) q;
    Step-moves = StageStep-moves t sys sound;
    Pull-moves = StagePull-moves t sys;
    progress = stage_progress t sys sound;
  }

  -- A stage that starts will deliver what its pipe delivers in one turn.
  pub rest-start :
      (i : sys.State) → stage_rest t sys (stage_start t sys i) ≡ pipe_through t (sys.rest i)
  rest-start i = unfold stage_rest prepend pipe_through in refl
