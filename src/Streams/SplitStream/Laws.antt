-- ===== src/Streams/SplitStream/Laws.antt =====
-- What `splitStream` delivers, against a split of the whole text.
use data_plane_gateway.Prelude.{
  ◌≡◌, ◌<◌, refl, sym, ap, ◌∙◌, inl, inr, some, List, [], ◌∷◌, ◌++◌, append-nil, append_assoc,
  flatten, init, init-append, Bool-cases, ◌==◌, length,
}
use data_plane_gateway.Text.{Text}
use data_plane_gateway.Text.Split.{split}
use data_plane_gateway.Text.Split.Laws.{
  rest, split-append, split-ne-nil, split-rest, split-nil, last?-rest,
}
use data_plane_gateway.Js.{returned}
use data_plane_gateway.Streams.{
  Stream, Ending, closed, errored, feed, pipe_through, feed-returned, feed-closed, prepend,
}
use data_plane_gateway.Streams.SplitStream.{transform, split_stream}

module _ (sep : Text) (h : 0 < length sep) where
  transform_lem :
      (b chunk : Text)
      → (split_stream sep).transform (some b) chunk
        ≡ returned (some (rest (split (b ++ chunk) sep)), init (split (b ++ chunk) sep))
  transform_lem b chunk =
      unfold transform split_stream in
      ap (λ l. returned (l, init (split (b ++ chunk) sep)))
        (last?-rest (split (b ++ chunk) sep) (split-ne-nil (b ++ chunk) sep h))

  -- A flush enqueues nothing: what is in the buffer is one part.
  flush_lem : (b : Text) → split b sep ≡ b ∷ [] → (split_stream sep).flush (some b) ≡ returned []
  flush_lem b e = elim (Bool-cases (length b == 0)) [
    | inl empty ↦ unfold split_stream in rw empty
    | inr full ↦ unfold split_stream in rw (full, e)
  ]

  feed_lem :
      (chunks : List Text) (b : Text) (ending : Ending)
      → split b sep ≡ b ∷ []
      → feed (split_stream sep) (some b) chunks ending
        ≡ record { chunks = init (split (b ++ flatten chunks) sep); ending = ending }
  unfolding flatten
  feed_lem [] b closed e =
      rw (append-nil b, e) (feed-closed (split_stream sep) (some b) (flush_lem b e))
  feed_lem [] b (errored x) e = unfold feed in rw (append-nil b, e)
  feed_lem (c ∷ chunks) b ending e =
      let b' = rest (split (b ++ c) sep) in
      let whole = split (b' ++ flatten chunks) sep in
      let parts : split (b ++ (c ++ flatten chunks)) sep ≡ init (split (b ++ c) sep) ++ whole =
        sym (ap (λ t. split t sep) (append_assoc b c (flatten chunks)))
        ∙ split-append (b ++ c) (flatten chunks) sep h in
      rw
        (
          feed-returned (split_stream sep) (some b) c chunks ending (transform_lem b c),
          feed_lem chunks b' ending (split-rest (b ++ c) sep h),
          parts,
          init-append _ whole (split-ne-nil _ sep h),
        )
        (unfold prepend in refl)

-- Whatever the chunks are and however the source ends, the lines of a stream are the parts of its
-- whole text but the last, for any separator that is not empty; and the stream ends as its source.
pub split_stream_lem :
    (sep : Text) (r : Stream Text)
    → 0 < length sep
    → pipe_through (split_stream sep) r
      ≡ record { chunks = init (split (flatten r.chunks) sep); ending = r.ending }
unfolding pipe_through split_stream
split_stream_lem sep r h = feed_lem sep h r.chunks [] r.ending (split-nil sep h)
