-- ===== src/Schedule/Through/Rest.antt =====
-- What a stage is still to deliver, and what its moves leave of it.
use data_plane_gateway.Prelude.{
  ◌≡◌, refl, sym, ap, ◌∙◌, inl, inr, none, some, List, [], ◌∷◌, ◌++◌, append-nil, append_assoc,
  Option-cases,
}
use data_plane_gateway.Js.{Thrown}
use data_plane_gateway.Streams.{
  Ending, closed, errored, Stream, Transformer, prepend, finish, feed, feed-returned, feed-thrown,
  feed-closed,
}
use data_plane_gateway.Schedule.Cuts.{Cuts, Cuts-prepend, fed, feed-Cuts}
use data_plane_gateway.Schedule.System.{System, IsSound}
use data_plane_gateway.Schedule.Through.{
  Stage, StageStep, upstream, transform, transform_throws, flush, flush_throws, abort, stage_rest,
}

pub prepend_append :
    {B : Type 0} (bs cs : List B) (r : Stream B) → prepend bs (prepend cs r) ≡ prepend (bs ++ cs) r
unfolding prepend
prepend_append bs cs r =
    ap (λ l. record { chunks = l; ending = r.ending }) (sym (append_assoc bs cs r.chunks))

module _ {S A B : Type 0} (t : Transformer S A B) (sys : System A) where
  abbrev pub open_stage : sys.State → S → List B → Stage sys.State S B
  open_stage i s q = record { inner = i; own = s; queue = q; status = none }

  abbrev pub ended_stage : sys.State → S → List B → Ending → Stage sys.State S B
  ended_stage i s q e = record { inner = i; own = s; queue = q; status = some e }

  pub rest-open :
      (x : Stage sys.State S B)
      → x.status ≡ none
      → stage_rest t sys x ≡ prepend x.queue (fed t x.own (sys.rest x.inner))
  rest-open x h = unfold stage_rest in rw (h, stage_rest)

  -- A failure empties the queue of an open stage.
  rest-fails :
      (x : Stage sys.State S B) (i : sys.State) (s : S) (e : Thrown)
      → x.status ≡ none
      → fed t x.own (sys.rest x.inner) ≡ record { chunks = []; ending = errored e }
      → Cuts (stage_rest t sys x) (stage_rest t sys (ended_stage i s [] (errored e)))
  rest-fails x i s e h k =
      rw (rest-open x h, k)
        (unfold stage_rest prepend in
          inr ((e, refl), (e, refl), (x.queue, sym (append-nil x.queue))))

  rest-flushed :
      (i : sys.State) (s : S) (q bs : List B)
      → stage_rest t sys (ended_stage i s (q ++ bs) closed)
        ≡ prepend q (record { chunks = bs; ending = closed })
  rest-flushed i s q bs = unfold stage_rest prepend in refl

  fed-pulled :
      IsSound sys
      → (s : S) (x y : sys.State) (a : A) → sys.Pull x a y
      → fed t s (sys.rest x) ≡ feed t s (a ∷ (sys.rest y).chunks) (sys.rest y).ending
  fed-pulled sound s x y a p = ap (fed t s) (sound.Pull-rest x a y p) ∙ unfold prepend in refl

  fed-closes :
      IsSound sys
      → (s : S) (x : sys.State) (e : Ending) → sys.Closes x e
      → fed t s (sys.rest x) ≡ feed t s [] e
  fed-closes sound s x e c = ap (fed t s) (sound.Closes-rest x e c)

  pub StageStep-Cuts :
      IsSound sys
      → (x y : Stage sys.State S B) → StageStep t sys x y
      → Cuts (stage_rest t sys x) (stage_rest t sys y)
  StageStep-Cuts sound x y (upstream i h s q) =
      rw (q, rest-open x h, rest-open (record x { inner = i }) h)
        (Cuts-prepend x.queue _ _ (feed-Cuts t x.own _ _ (sound.Step-Cuts x.inner i s)))
  StageStep-Cuts sound x y (transform a i s bs h p k q) = inl (
      ap (stage_rest t sys) q
      ∙ rest-open (open_stage i s (x.queue ++ bs)) refl
      ∙ sym (prepend_append x.queue bs (fed t s (sys.rest i)))
      ∙ ap (prepend x.queue) (
          sym (
            fed-pulled sound x.own x.inner i a p
            ∙ feed-returned t x.own a (sys.rest i).chunks (sys.rest i).ending k))
      ∙ sym (rest-open x h))
  StageStep-Cuts sound x y (transform_throws a i e h p k q) = rw q (
      rest-fails x i x.own e h (
        fed-pulled sound x.own x.inner i a p
        ∙ feed-thrown t x.own a (sys.rest i).chunks (sys.rest i).ending k))
  StageStep-Cuts sound x y (flush bs h c k q) = inl (
      ap (stage_rest t sys) q
      ∙ rest-flushed x.inner x.own x.queue bs
      ∙ ap (prepend x.queue) (sym (fed-closes sound x.own x.inner closed c ∙ feed-closed t x.own k))
      ∙ sym (rest-open x h))
  StageStep-Cuts sound x y (flush_throws e h c k q) = rw q (
      rest-fails x x.inner x.own e h
        (fed-closes sound x.own x.inner closed c ∙ unfold feed finish in rw k))
  StageStep-Cuts sound x y (abort e h c q) = rw q (
      rest-fails x x.inner x.own e h
        (fed-closes sound x.own x.inner (errored e) c ∙ unfold feed in refl))

  pub rest-ended :
      (x : Stage sys.State S B) (e : Ending)
      → x.status ≡ some e
      → stage_rest t sys x ≡ record { chunks = x.queue; ending = e }
  rest-ended x e h = unfold stage_rest in rw (h, stage_rest)

  pub StagePull-rest :
      (x : Stage sys.State S B) (b : B) (y : Stage sys.State S B)
      → x ≡ record y { queue = b ∷ y.queue }
      → stage_rest t sys x ≡ prepend (b ∷ []) (stage_rest t sys y)
  StagePull-rest x b y p = ap (stage_rest t sys) p ∙ (elim (Option-cases y.status) [
    | inl h ↦
        rest-open (record y { queue = b ∷ y.queue }) h
        ∙ sym (prepend_append (b ∷ []) y.queue (fed t y.own (sys.rest y.inner)))
        ∙ ap (prepend (b ∷ [])) (sym (rest-open y h))
    | inr (e, h) ↦
        rest-ended (record y { queue = b ∷ y.queue }) e h
        ∙ pushed y.queue e
        ∙ ap (prepend (b ∷ [])) (sym (rest-ended y e h))
  ])
    where
      pushed :
          (q : List B) (e : Ending)
          → ◌≡◌ {A = Stream B}
              (record { chunks = b ∷ q; ending = e })
              (prepend (b ∷ []) (record { chunks = q; ending = e }))
      pushed q e = unfold prepend in refl
