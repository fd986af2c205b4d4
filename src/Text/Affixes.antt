-- ===== src/Text/Affixes.antt =====
-- Prefixes and suffixes of strings.
use data_plane_gateway.Prelude.{
  ◌≤◌, ◌≡◌, refl, sym, true, [], ◌∷◌, ◌++◌, length, arith, Bool-cases, inl, inr,
}
use data_plane_gateway.Text.{Text, text_eq, starts_with, ends_with}
use data_plane_gateway.Text.Order.{text_eq_refl, text_eq→eq}

pub ends_with-append : (s p : Text) → ends_with p (s ++ p) ≡ true
unfolding ends_with
ends_with-append [] [] = unfold text_eq in refl
ends_with-append [] (c ∷ p) = rw text_eq_refl
ends_with-append (c ∷ s) p = ground (arith, ends_with-append s p)

-- A suffix splits the string.
pub ends_with_sound : (p s : Text) → ends_with p s ≡ true → (r : Text) × (s ≡ r ++ p)
unfolding ends_with
ends_with_sound p [] h = ([], sym (text_eq→eq p [] h))
ends_with_sound p (c ∷ s) h = elim (Bool-cases (text_eq p (c ∷ s))) [
  | inl e ↦ ([], sym (text_eq→eq p (c ∷ s) e))
  | inr e ↦ let (r, q) = ends_with_sound p s (rw e at h) in (c ∷ r, rw q)
]

pub starts_with-append : (p s t : Text) → starts_with p s ≡ true → starts_with p (s ++ t) ≡ true
unfolding starts_with
starts_with-append [] s t h = refl
starts_with-append (a ∷ p) [] t h = ground arith
starts_with-append (a ∷ p) (b ∷ s) t h = ground (arith, starts_with-append p s t)

-- What follows a long enough string does not matter.
pub starts_with-append_long :
    (p s t : Text) → length p ≤ length s → starts_with p (s ++ t) ≡ starts_with p s
unfolding starts_with
starts_with-append_long [] s t h = refl
starts_with-append_long (a ∷ p) [] t h = elim h [ ]
starts_with-append_long (a ∷ p) (b ∷ s) t h = ground (arith, starts_with-append_long p s t)

pub starts_with-le-length : (p s : Text) → starts_with p s ≡ true → length p ≤ length s
unfolding starts_with
starts_with-le-length [] s h = omega arith
starts_with-le-length (a ∷ p) [] h = absurd (ground arith)
starts_with-le-length (a ∷ p) (b ∷ s) h = ground (arith, starts_with-le-length p s)
