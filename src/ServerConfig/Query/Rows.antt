-- ===== src/ServerConfig/Query/Rows.antt =====
-- The rows that an INSERT or an UPDATE gives.
use mysql8_audit_proxy.Base.{
  ℕ, zero, suc, ◌*◌, ◌≤◌, ◌≡◌, ◌≢◌, ◌⊎◌, inl, inr, refl, sym, ap, ◌∙◌, List, [], ◌∷◌, Text, length,
  drop, All, Result, ok, err, arith, length-drop,
}
use mathlib.Core.Path.{ap₂}
use mysql8_audit_proxy.ServerConfig.Query.{
  Server, Query, is_user, is_password, is_unknown, column_of, ConfigError, with_columns, set_column,
  set_columns, and_rows, rows_to_config, columns_to_config,
}

abbrev pub IsKnown : Text → Type 0
IsKnown c = column_of c ≢ is_unknown

-- Where a row is read, it has a value for each column, and each column is one of the table's.
set_columns-ok :
    (columns values : List Text) (s t : Server)
    → set_columns columns values s ≡ ok t
    → (length columns ≤ length values) × All IsKnown columns
unfolding set_columns
set_columns-ok [] values s t e = (omega arith, tt)
set_columns-ok (c ∷ columns) [] s t e = cc
set_columns-ok (c ∷ columns) (v ∷ values) s t e =
    let s' = set_column (column_of c) v s in ground (arith, set_columns-ok columns values s' t)

and_rows-ok :
    (r : Result ConfigError Server) (rest : Result ConfigError (List Server)) (res : List Server)
    → and_rows r rest ≡ ok res
    → (s : Server) × (servers : List Server) × (r ≡ ok s)
      × (rest ≡ ok servers)
      × (res ≡ s ∷ servers)
and_rows-ok (ok s) (ok servers) res e = (s, servers, refl, refl, ground arith)
and_rows-ok (ok s) (err x) res e = cc
and_rows-ok (err x) rest res e = cc

module _ (c : Text) (columns : List Text) where
  -- With at least one column, as many rounds as there are values are enough for the loop over the
  -- rows: more change nothing.
  pub rows_to_config-fuel :
      (f g : ℕ) (values : List Text)
      → length values ≤ f
      → length values ≤ g
      → rows_to_config f (c ∷ columns) values ≡ rows_to_config g (c ∷ columns) values
  unfolding rows_to_config
  rows_to_config-fuel zero zero [] hf hg = refl
  rows_to_config-fuel _ _ [] hf hg = refl
  rows_to_config-fuel zero g (v ∷ values) hf hg = absurd (omega arith)
  rows_to_config-fuel (suc f) zero (v ∷ values) hf hg = absurd (omega arith)
  rows_to_config-fuel (suc f) (suc g) (v ∷ values) hf hg =
      let shorter = length-drop (length columns) values in
      ap (and_rows (set_columns (c ∷ columns) (v ∷ values) (record { user = []; password = [] }))) (
        rows_to_config-fuel f g (drop (length columns) values) (omega (arith, shorter))
          (omega (arith, shorter)))

  rows_to_config-ok :
      (fuel : ℕ) (values : List Text) (res : List Server)
      → length values ≤ fuel
      → rows_to_config fuel (c ∷ columns) values ≡ ok res
      → (length res * length (c ∷ columns) ≡ length values)
        × ((values ≡ []) ⊎ All IsKnown (c ∷ columns))
  unfolding rows_to_config
  rows_to_config-ok zero [] res h e = (ground arith, inl refl)
  rows_to_config-ok (suc fuel) [] res h e = (ground arith, inl refl)
  rows_to_config-ok zero (v ∷ values) res h e = absurd (omega arith)
  rows_to_config-ok (suc fuel) (v ∷ values) res h e =
      let rest = drop (length columns) values in
      let shorter = length-drop (length columns) values in
      let (s, servers, row, rows, is) =
        and_rows-ok _ (rows_to_config fuel (c ∷ columns) rest) res e in
      let (fits, known) = set_columns-ok (c ∷ columns) (v ∷ values) _ s row in
      let (counted, _) = rows_to_config-ok fuel rest servers (omega (arith, shorter)) rows in
      (rw is (omega (arith, shorter, counted, fits)), inr known)

with_columns_cons :
    (cs : List Text) → (c : Text) × (columns : List Text) × (with_columns cs ≡ c ∷ columns)
unfolding with_columns
with_columns_cons [] = (_, _, refl)
with_columns_cons (c ∷ cs) = (c, cs, refl)

-- Where rows are read without an error, every value is in one of them, and each column is one of
-- the table's or there are no values.
pub columns_to_config-ok :
    (p : Query) (res : List Server)
    → columns_to_config p ≡ ok res
    → (length res * length (with_columns p.columns) ≡ length p.values)
      × ((p.values ≡ []) ⊎ All IsKnown (with_columns p.columns))
unfolding columns_to_config
columns_to_config-ok p res e =
    let (c, columns, is) = with_columns_cons p.columns in
    rw is (
      rows_to_config-ok c columns (length p.values) p.values res (omega arith)
        (ap (λ cs. rows_to_config (length p.values) cs p.values) (sym is) ∙ e))

-- The values that give the servers, one by one.
abbrev pub values_of : List Server → List Text
values_of [] = []
values_of (s ∷ servers) = s.user ∷ s.password ∷ values_of servers

module _ (a b : Text) (user_first : column_of a ≡ is_user)
    (then_password : column_of b ≡ is_password) where
  set_columns-pair :
      (u p : Text) (values : List Text) (s : Server)
      → set_columns (a ∷ b ∷ []) (u ∷ p ∷ values) s ≡ ok (record { user = u; password = p })
  unfolding set_columns
  set_columns-pair u p values s = rw (user_first, then_password)

  rows_to_config-values_of :
      (fuel : ℕ) (servers : List Server)
      → length (values_of servers) ≤ fuel
      → rows_to_config fuel (a ∷ b ∷ []) (values_of servers) ≡ ok servers
  unfolding rows_to_config
  rows_to_config-values_of zero [] h = refl
  rows_to_config-values_of _ [] h = refl
  rows_to_config-values_of zero (s ∷ servers) h = absurd (omega arith)
  rows_to_config-values_of (suc fuel) (s ∷ servers) h = rw (
    set_columns-pair s.user s.password (values_of servers) (record { user = []; password = [] }),
    rows_to_config-values_of fuel servers (omega arith),
  )

  -- An INSERT of users and passwords, into one column that stands for the user and then one that
  -- stands for the password, gives these servers in their order.
  pub columns_to_config-values_of :
      (p : Query) (servers : List Server)
      → p.columns ≡ a ∷ b ∷ []
      → p.values ≡ values_of servers
      → columns_to_config p ≡ ok servers
  unfolding columns_to_config with_columns
  columns_to_config-values_of p servers hc hv =
      ap₂ (λ cs vs. rows_to_config (length vs) (with_columns cs) vs) hc hv
      ∙ rows_to_config-values_of (length (values_of servers)) servers (omega arith)
