-- ===== src/Json/Parse.antt =====
-- JSON.parse: `none` is the `SyntaxError`. The parser recurs on fuel: every code unit costs
-- at most three rounds.
use data_plane_gateway.Prelude.{
  ℕ, zero, suc, ◌+◌, ◌*◌, true, false, Option, none, some, [], ◌∷◌, length, ◌==◌, if◌then◌else◌,
}
use mathlib.Core.Option.{get_or}
use data_plane_gateway.Text.{Text, codes, text_eq}
use data_plane_gateway.Json.{
  Json, null, bool, num, str, arr, obj, Items, nil, cons, Fields, end, field, lookup,
}
use data_plane_gateway.Json.Stringify.{quote}
use data_plane_gateway.Json.Scan.{
  expect, expect_all, plain, read_number, read_string, skip_space, start, ◌>>=◌,
}

unfoldable pub read_literal : Text → Json → Text → Option (Json × Text)
unfolding expect_all
read_literal w v s = expect_all w s >>= λ r. some (v, r)

unfoldable pub number_value : Text → Option (Json × Text)
unfolding read_number
number_value s = read_number start [] s >>= λ (n, r). some (num n, r)

unfoldable pub string_value : Text → Option (Json × Text)
unfolding read_string
string_value s = read_string plain [] s >>= λ (t, r). some (str t, r)

-- A member name and its colon.
unfoldable pub read_key : Text → Option (Text × Text)
unfolding skip_space expect read_string
read_key s = expect quote (skip_space s) >>= λ r.
    read_string plain [] r >>= λ (k, q). expect b':' (skip_space q) >>= λ w. some (k, w)

unfoldable pub without : Text → Fields → Fields
without k end = end
without k (field j v fs) = let rest = without k fs in if text_eq j k then rest else field j v rest

-- A member in front of those that follow it. Where one of these has its name, its value counts.
unfoldable pub put_first : Text → Json → Fields → Fields
unfolding lookup without
put_first k v fs = field k (get_or (lookup k fs) v) (without k fs)

unfoldable mutual
  unfolding skip_space expect read_literal number_value string_value read_key put_first

  -- A value, with the space in front of it.
  pub read_value : ℕ → Text → Option (Json × Text)
  read_value zero s = none
  read_value (suc f) s = read_bare f (skip_space s)

  pub read_bare : ℕ → Text → Option (Json × Text)
  read_bare zero s = none
  read_bare (suc f) [] = none
  read_bare (suc f) (c ∷ s) =
      let array = read_items f s >>= λ (vs, r). some (arr vs, r) in
      let object = read_fields f s >>= λ (fs, r). some (obj fs, r) in
      if c == b'['
      then array
      else if c == b'{'
      then object
      else if c == quote
      then string_value s
      else if c == b'n'
      then read_literal (codes "ull") null s
      else if c == b't'
      then read_literal (codes "rue") (bool true) s
      else if c == b'f'
      then read_literal (codes "alse") (bool false) s
      else number_value (c ∷ s)

  -- The elements behind `[`, up to the bracket that closes.
  pub read_items : ℕ → Text → Option (Items × Text)
  read_items zero s = none
  read_items (suc f) s = elim (expect b']' (skip_space s)) [
    | some r ↦ some (nil, r)
    | none ↦ read_elements f s
  ]

  pub read_elements : ℕ → Text → Option (Items × Text)
  read_elements zero s = none
  read_elements (suc f) s = read_value f s >>= λ (v, r). elim (expect b']' (skip_space r)) [
    | some q ↦ some (cons v nil, q)
    | none ↦
        expect b',' (skip_space r) >>= λ q. read_elements f q >>= λ (vs, w). some (cons v vs, w)
  ]

  -- The members behind `{`, up to the brace that closes.
  pub read_fields : ℕ → Text → Option (Fields × Text)
  read_fields zero s = none
  read_fields (suc f) s = elim (expect b'}' (skip_space s)) [
    | some r ↦ some (end, r)
    | none ↦ read_members f s
  ]

  pub read_members : ℕ → Text → Option (Fields × Text)
  read_members zero s = none
  read_members (suc f) s = read_key s >>= λ (k, r). read_value f r >>= λ (v, q).
      elim (expect b'}' (skip_space q)) [
        | some w ↦ some (field k v end, w)
        | none ↦ expect b',' (skip_space q) >>= λ w.
            read_members f w >>= λ (fs, u). some (put_first k v fs, u)
      ]

-- Every code unit costs at most three rounds: a value, its first unit, and a separator.
unfoldable pub parse : Text → Option Json
unfolding read_value
parse s =
    read_value (length s * 3 + 3) s >>= λ (v, r). elim (skip_space r) [ [] ↦ some v | _ ↦ none ]
