-- ===== src/Text/Order.antt =====
-- The laws of the comparison of strings.
use data_plane_gateway.Prelude.{◌≡◌, refl, true, false, [], ◌∷◌, arith, ◌↔◌}
use data_plane_gateway.Text.{Text, text_eq, text_lt}

pub text_eq_refl : (s : Text) → text_eq s s ≡ true
unfolding text_eq
text_eq_refl [] = refl
text_eq_refl (a ∷ s) = ground (arith, text_eq_refl s)

pub text_eq→eq : (s t : Text) → text_eq s t ≡ true → s ≡ t
unfolding text_eq
text_eq→eq [] [] h = refl
text_eq→eq [] (b ∷ t) h = ground arith
text_eq→eq (a ∷ s) [] h = ground arith
text_eq→eq (a ∷ s) (b ∷ t) h = ground (arith, text_eq→eq s t)

pub text_eq_iff : (s t : Text) → (text_eq s t ≡ true) ↔ (s ≡ t)
text_eq_iff s t = (text_eq→eq s t, λ e. subst_refl s t e)
  where
    subst_refl : (s t : Text) → s ≡ t → text_eq s t ≡ true
    subst_refl s t e = ground (arith, text_eq_refl s, e)

pub text_lt_irrefl : (s : Text) → text_lt s s ≡ false
unfolding text_lt
text_lt_irrefl [] = refl
text_lt_irrefl (a ∷ s) = ground (arith, text_lt_irrefl s)

pub text_lt_trans : (s t u : Text) → text_lt s t ≡ true → text_lt t u ≡ true → text_lt s u ≡ true
unfolding text_lt
text_lt_trans [] [] u p q = ground arith
text_lt_trans [] (b ∷ t) [] p q = ground arith
text_lt_trans [] (b ∷ t) (c ∷ u) p q = refl
text_lt_trans (a ∷ s) [] u p q = ground arith
text_lt_trans (a ∷ s) (b ∷ t) [] p q = ground arith
text_lt_trans (a ∷ s) (b ∷ t) (c ∷ u) p q = ground (arith, text_lt_trans s t u)

pub text_lt_connected : (s t : Text) → text_lt s t ≡ false → text_lt t s ≡ false → s ≡ t
unfolding text_lt
text_lt_connected [] [] p q = refl
text_lt_connected [] (b ∷ t) p q = ground arith
text_lt_connected (a ∷ s) [] p q = ground arith
text_lt_connected (a ∷ s) (b ∷ t) p q = ground (arith, text_lt_connected s t)
