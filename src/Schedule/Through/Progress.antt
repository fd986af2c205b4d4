-- ===== src/Schedule/Through/Progress.antt =====
-- A stage that has not ended has a move.
use data_plane_gateway.Prelude.{
  ◌≡◌, refl, ap, ◌⊎◌, inl, inr, none, some, List, [], ◌∷◌, ◌++◌, Option-cases,
}
use data_plane_gateway.Js.{Outcome-cases}
use data_plane_gateway.Streams.{Ending, closed, errored, Transformer}
use data_plane_gateway.Schedule.System.{System, IsSound}
use data_plane_gateway.Schedule.Through.{
  Stage, StageStep, upstream, transform, transform_throws, flush, flush_throws, abort,
}
use data_plane_gateway.Schedule.Through.Rest.{open_stage, ended_stage}

module _ {S A B : Type 0} (t : Transformer S A B) (sys : System A) where
  -- What an open stage does when the part in front hands a chunk over, and when it closes.
  transforms :
      (x : Stage sys.State S B) (a : A) (i : sys.State)
      → x.status ≡ none
      → sys.Pull x.inner a i
      → (y : Stage sys.State S B) × StageStep t sys x y
  transforms x a i h p = elim (Outcome-cases (t.transform x.own a)) [
    | inl ((s, bs), k) ↦ (open_stage t sys i s (x.queue ++ bs), transform a i s bs h p k refl)
    | inr (e, k) ↦ (ended_stage t sys i x.own [] (errored e), transform_throws a i e h p k refl)
  ]

  closes :
      (x : Stage sys.State S B) (e : Ending)
      → x.status ≡ none
      → sys.Closes x.inner e
      → (y : Stage sys.State S B) × StageStep t sys x y
  closes x (errored e) h c = (record x { queue = []; status = some (errored e) }, abort e h c refl)
  closes x closed h c = elim (Outcome-cases (t.flush x.own)) [
    | inl (bs, k) ↦ (record x { queue = x.queue ++ bs; status = some closed }, flush bs h c k refl)
    | inr (e, k) ↦ (record x { queue = []; status = some (errored e) }, flush_throws e h c k refl)
  ]

  abbrev Progress : Stage sys.State S B → Type 0
  Progress x =
      ((e : Ending) × ((x.queue ≡ []) × (x.status ≡ some e)))
      ⊎ ((b : B) × (y : Stage sys.State S B) × (x ≡ record y { queue = b ∷ y.queue }))
      ⊎ ((y : Stage sys.State S B) × StageStep t sys x y)

  pub stage_progress : IsSound sys → (x : Stage sys.State S B) → Progress x
  stage_progress sound x = elim (Option-cases x.status) [
    | inl h ↦ inr (inr (moves_on h (sound.progress x.inner)))
    | inr (e, h) ↦ by_queue x.queue refl e h
  ]
    where
      moves_on :
          x.status ≡ none
          → ((e : Ending) × sys.Closes x.inner e)
            ⊎ ((a : A) × (i : sys.State) × sys.Pull x.inner a i)
            ⊎ ((i : sys.State) × sys.Step x.inner i)
          → (y : Stage sys.State S B) × StageStep t sys x y
      moves_on h (inl (e, c)) = closes x e h c
      moves_on h (inr (inl (a, i, p))) = transforms x a i h p
      moves_on h (inr (inr (i, s))) = (record x { inner = i }, upstream i h s refl)

      by_queue : (q : List B) → x.queue ≡ q → (e : Ending) → x.status ≡ some e → Progress x
      by_queue [] k e h = inl (e, (k, h))
      by_queue (b ∷ q) k e h =
          inr (inl (b, record x { queue = q }, ap (λ l. record x { queue = l }) k))
