-- ===== src/Json/RoundTrip/Values.antt =====
-- JSON values as they are printed: which ones can be read back, how they begin, and those that hold
-- no others.
use data_plane_gateway.Prelude.{
  ℕ, suc, ◌+◌, ◌≤◌, ◌≡◌, ◌≢◌, refl, ap, ◌∙◌, ◌⊎◌, true, false, none, some, [], ◌∷◌, ◌++◌,
  append_assoc, All, arith,
}
use data_plane_gateway.Text.{Text}
use data_plane_gateway.Json.{
  Json, null, bool, num, str, arr, obj, Items, nil, cons, Fields, end, field, lookup,
}
use data_plane_gateway.Json.Stringify.{quote, quote_units, stringify_text, stringify}
use data_plane_gateway.Json.Scan.{start, is_space, skip_space, expect}
use data_plane_gateway.Json.Parse.{
  number_value, string_value, read_key, without, put_first, read_value, read_bare,
}
use data_plane_gateway.Json.RoundTrip.Strings.{IsUnit16, read_stringified}
use data_plane_gateway.Json.RoundTrip.Numbers.{
  IsStop, IsNumber, read_number-stop, IsNumber-head, IsNumber-nil,
}

-- Values whose numbers are literals of JSON, whose strings hold code units, and whose objects
-- repeat no name.
unfoldable mutual
  pub IsJson : Json → Type 0
  IsJson null = Unit
  IsJson (bool b) = Unit
  IsJson (num n) = IsNumber n
  IsJson (str s) = All IsUnit16 s
  IsJson (arr vs) = AreJson vs
  IsJson (obj fs) = AreMembers fs

  pub AreJson : Items → Type 0
  AreJson nil = Unit
  AreJson (cons v vs) = IsJson v × AreJson vs

  pub AreMembers : Fields → Type 0
  AreMembers end = Unit
  AreMembers (field k v fs) = All IsUnit16 k × IsJson v × (lookup k fs ≡ none) × AreMembers fs

-- The fuel that a value takes behind its first code unit.
unfoldable mutual
  pub need : Json → ℕ
  need null = 0
  need (bool b) = 0
  need (num n) = 0
  need (str s) = 0
  need (arr vs) = 1 + need_items vs
  need (obj fs) = 1 + need_fields fs

  pub need_items : Items → ℕ
  need_items nil = 0
  need_items (cons v vs) = 3 + need v + need_items vs

  pub need_fields : Fields → ℕ
  need_fields end = 0
  need_fields (field k v fs) = 3 + need v + need_fields fs

-- A value begins with a code unit that is no space and closes nothing.
abbrev pub IsHead : Text → Type 0
IsHead [] = ⊥
IsHead (c ∷ s) = (is_space c ≡ false) × (c ≢ b']') × (c ≢ b'}')

pub stringify-IsHead : (v : Json) → IsJson v → IsHead (stringify v)
unfolding IsJson stringify
stringify-IsHead null h = (refl, (λ e. ground arith), (λ e. ground arith))
stringify-IsHead (bool true) h = (refl, (λ e. ground arith), (λ e. ground arith))
stringify-IsHead (bool false) h = (refl, (λ e. ground arith), (λ e. ground arith))
stringify-IsHead (num []) h = IsNumber-nil h
stringify-IsHead (num (c ∷ n)) h = number_head (IsNumber-head c n h)
  where
    number_head : (c ≡ b'-') ⊎ (b'0' ≤ c) × (c ≤ b'9') → IsHead (c ∷ n)
    number_head k = (ground arith, (λ e. ground arith), (λ e. ground arith))
stringify-IsHead (str s) h = (refl, (λ e. ground arith), (λ e. ground arith))
stringify-IsHead (arr vs) h = (refl, (λ e. ground arith), (λ e. ground arith))
stringify-IsHead (obj fs) h = (refl, (λ e. ground arith), (λ e. ground arith))

pub skip_space-head : (s t : Text) → IsHead s → skip_space (s ++ t) ≡ s ++ t
unfolding skip_space
skip_space-head [] t h = absurd h
skip_space-head (c ∷ s) t (h, _, _) = rw h

pub expect-head :
    (s t : Text) → IsHead s → (expect b']' (s ++ t) ≡ none) × (expect b'}' (s ++ t) ≡ none)
unfolding expect
expect-head [] t h = absurd h
expect-head (c ∷ s) t (h, p, q) = (ground arith, ground arith)

pub read_value_bare :
    (f : ℕ) (v : Json) (t : Text)
    → IsJson v
    → read_value (suc f) (stringify v ++ t) ≡ read_bare f (stringify v ++ t)
read_value_bare f v t h =
    unfold read_value in ap (read_bare f) (skip_space-head (stringify v) t (stringify-IsHead v h))

pub read_bare_number :
    (f : ℕ) (n t : Text) → IsNumber n → IsStop t → read_bare (suc f) (n ++ t) ≡ some (num n, t)
read_bare_number f [] t h s = absurd (IsNumber-nil h)
read_bare_number f (c ∷ n) t h s =
    dispatch (IsNumber-head c n h)
    ∙ unfold number_value in rw (read_number-stop start [] (c ∷ n) (c ∷ n) t h s)
  where
    dispatch :
        (c ≡ b'-') ⊎ (b'0' ≤ c) × (c ≤ b'9')
        → read_bare (suc f) (c ∷ n ++ t) ≡ number_value (c ∷ n ++ t)
    dispatch k = unfold read_bare in ground arith

pub read_bare_string :
    (f : ℕ) (s t : Text)
    → All IsUnit16 s
    → read_bare (suc f) (stringify_text s ++ t) ≡ some (str s, t)
read_bare_string f s t h =
    unfold stringify_text read_bare string_value in
    rw (append_assoc (quote_units s) (quote ∷ []) t, read_stringified s t h)

pub read_key_printed :
    (k t : Text) → All IsUnit16 k → read_key (stringify_text k ++ b':' ∷ t) ≡ some (k, t)
read_key_printed k t h =
    unfold stringify_text read_key expect skip_space in
    rw (append_assoc (quote_units k) (quote ∷ []) (b':' ∷ t), read_stringified k (b':' ∷ t) h)

without_new : (k : Text) (fs : Fields) → lookup k fs ≡ none → without k fs ≡ fs
unfolding without lookup
without_new k end h = refl
without_new k (field j v fs) h = ground (arith, without_new k fs)

pub put_first_new :
    (k : Text) (v : Json) (fs : Fields) → lookup k fs ≡ none → put_first k v fs ≡ field k v fs
put_first_new k v fs h = unfold put_first in rw (h, without_new k fs h)
