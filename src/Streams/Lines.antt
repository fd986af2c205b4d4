-- ===== src/Streams/Lines.antt =====
-- Lines: texts without a separator of one code unit, each with the separator behind it.
use data_plane_gateway.Prelude.{
  ℕ, ◌≡◌, ◌≢◌, refl, ap, ◌∙◌, List, [], ◌∷◌, ◌++◌, append_assoc, All, arith, init, ◌==◌,
}
use data_plane_gateway.Text.{Text, starts_with}
use data_plane_gateway.Text.Split.{push, cut, split}
use data_plane_gateway.Streams.{Stream, pipe_through}
use data_plane_gateway.Streams.SplitStream.{split_stream}
use data_plane_gateway.Streams.SplitStream.Laws.{split_stream_lem}
use data_plane_gateway.Prelude.{flatten, init-append_last}

abbrev pub Lacks : ℕ → Text → Type 0
Lacks c = All (λ d. d ≢ c)

-- lines.map((line) => line + sep).join("")
abbrev pub terminated : ℕ → List Text → Text
terminated sep [] = []
terminated sep (l ∷ ls) = l ++ sep ∷ terminated sep ls

module _ (sep : ℕ) where
  starts_with_unit : (c : ℕ) (s : Text) → starts_with (sep ∷ []) (c ∷ s) ≡ (sep == c)
  unfolding starts_with
  starts_with_unit c s = ground arith

  cut-Lacks : (l : Text) → Lacks sep l → cut (sep ∷ []) 0 l ≡ l ∷ []
  unfolding cut push
  cut-Lacks [] h = refl
  cut-Lacks (c ∷ l) (hc, h) = ground (arith, cut-Lacks l h, starts_with_unit c l)

  cut-line : (l s : Text) → Lacks sep l → cut (sep ∷ []) 0 (l ++ sep ∷ s) ≡ l ∷ cut (sep ∷ []) 0 s
  unfolding cut push
  cut-line [] s h = ground (arith, starts_with_unit sep s)
  cut-line (c ∷ l) s (hc, h) = ground (arith, cut-line l s h, starts_with_unit c (l ++ sep ∷ s))

  pub split-terminated :
      (ls : List Text) (tail : Text)
      → All (Lacks sep) ls
      → Lacks sep tail
      → split (terminated sep ls ++ tail) (sep ∷ []) ≡ ls ++ tail ∷ []
  unfolding split
  split-terminated [] tail h ht = cut-Lacks tail ht
  split-terminated (l ∷ ls) tail (hl, h) ht =
      ap (λ t. cut (sep ∷ []) 0 t) (append_assoc l (sep ∷ terminated sep ls) tail)
      ∙ cut-line l (terminated sep ls ++ tail) hl
      ∙ ap (◌∷◌ l) (split-terminated ls tail h ht)

-- Lines that are written each with the separator behind it are delivered as they are, however
-- they were cut into chunks. A last line that is not terminated is dropped.
pub split_stream-terminated :
    (sep : ℕ) (ls : List Text) (tail : Text) (r : Stream Text)
    → All (Lacks sep) ls
    → Lacks sep tail
    → flatten r.chunks ≡ terminated sep ls ++ tail
    → pipe_through (split_stream (sep ∷ [])) r ≡ record { chunks = ls; ending = r.ending }
split_stream-terminated sep ls tail r h ht e =
    split_stream_lem (sep ∷ []) r (omega arith)
    ∙ ap (λ l. record { chunks = init l; ending = r.ending })
        (ap (λ t. split t (sep ∷ [])) e ∙ split-terminated sep ls tail h ht)
    ∙ ap (λ (l : List Text). record { chunks = l; ending = r.ending }) (init-append_last ls tail)
