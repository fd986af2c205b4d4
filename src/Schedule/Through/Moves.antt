-- ===== src/Schedule/Through/Moves.antt =====
-- The moves of a stage come to an end.
use data_plane_gateway.Prelude.{
  ◌+◌, ◌<◌, ◌≡◌, ap, ◌∙◌, inl, inr, none, some, [], ◌∷◌, length, arith, Option-cases,
}
use data_plane_gateway.Streams.{Ending, closed, errored, Stream, Transformer, prepend}
use data_plane_gateway.Schedule.Cuts.{Cuts, Cuts-length}
use data_plane_gateway.Schedule.System.{System, IsSound}
use data_plane_gateway.Schedule.Through.{
  Stage, StageStep, upstream, transform, transform_throws, flush, flush_throws, abort, stage_rest,
  stage_moves,
}
use data_plane_gateway.Schedule.Through.Rest.{rest-ended, StageStep-Cuts, StagePull-rest}

module _ {S A B : Type 0} (t : Transformer S A B) (sys : System A) where
  moves-open :
      (x : Stage sys.State S B)
      → x.status ≡ none
      → stage_moves t sys x ≡ sys.moves x.inner + 1 + length (stage_rest t sys x).chunks
  moves-open x h = unfold stage_moves in simp (h, stage_moves)

  moves-ended :
      (x : Stage sys.State S B) (e : Ending)
      → x.status ≡ some e
      → stage_moves t sys x ≡ length x.queue
  moves-ended x e h = unfold stage_moves in rw (h, stage_moves)

  stays_open :
      (x y : Stage sys.State S B)
      → x.status ≡ none
      → y.status ≡ none
      → sys.moves y.inner < sys.moves x.inner
      → Cuts (stage_rest t sys x) (stage_rest t sys y)
      → stage_moves t sys y < stage_moves t sys x
  stays_open x y h k m c = omega (
    arith,
    moves-open x h,
    moves-open y k,
    Cuts-length (stage_rest t sys x) (stage_rest t sys y) c,
  )

  ends :
      (x y : Stage sys.State S B) (e : Ending)
      → x.status ≡ none
      → y.status ≡ some e
      → Cuts (stage_rest t sys x) (stage_rest t sys y)
      → stage_moves t sys y < stage_moves t sys x
  ends x y e h k c = omega (
    arith,
    moves-open x h,
    moves-ended y e k,
    Cuts-length (stage_rest t sys x) (stage_rest t sys y) c,
    ap (λ r. length r.chunks) (rest-ended t sys y e k),
  )

  pub StageStep-moves :
      IsSound sys
      → (x y : Stage sys.State S B) → StageStep t sys x y
      → stage_moves t sys y < stage_moves t sys x
  StageStep-moves sound x y st = by_case st
    where
      c : Cuts (stage_rest t sys x) (stage_rest t sys y)
      c = StageStep-Cuts t sys sound x y st

      by_case : StageStep t sys x y → stage_moves t sys y < stage_moves t sys x
      by_case (upstream i h s q) =
          stays_open x y h (ap (λ z. z.status) q ∙ h) (rw q (sound.Step-moves x.inner i s)) c
      by_case (transform a i s bs h p k q) =
          stays_open x y h (ap (λ z. z.status) q) (rw q (sound.Pull-moves x.inner a i p)) c
      by_case (transform_throws a i e h p k q) = ends x y (errored e) h (ap (λ z. z.status) q) c
      by_case (flush bs h p k q) = ends x y closed h (ap (λ z. z.status) q) c
      by_case (flush_throws e h p k q) = ends x y (errored e) h (ap (λ z. z.status) q) c
      by_case (abort e h p q) = ends x y (errored e) h (ap (λ z. z.status) q) c

  pub StagePull-moves :
      (x : Stage sys.State S B) (b : B) (y : Stage sys.State S B)
      → x ≡ record y { queue = b ∷ y.queue }
      → stage_moves t sys y < stage_moves t sys x
  StagePull-moves x b y p = elim (Option-cases y.status) [
    | inl h ↦ omega (
      arith,
      moves-open y h,
      moves-open x (ap (λ z. z.status) p ∙ h),
      same_inner,
      ap (λ r. length r.chunks) (StagePull-rest t sys x b y p),
      length-pushed (stage_rest t sys y),
    )
    | inr (e, h) ↦ omega (
      arith,
      moves-ended y e h,
      moves-ended x e (ap (λ z. z.status) p ∙ h),
      ap (λ z. length z.queue) p,
    )
  ]
    where
      same_inner : sys.moves x.inner ≡ sys.moves y.inner
      same_inner = ap (λ z. sys.moves z.inner) p

      length-pushed : (r : Stream B) → length (prepend (b ∷ []) r).chunks ≡ length r.chunks + 1
      length-pushed r = unfold prepend in omega arith
