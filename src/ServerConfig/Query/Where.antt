-- ===== src/ServerConfig/Query/Where.antt =====
-- What a WHERE clause selects.
use mysql8_audit_proxy.Base.{
  ℕ, zero, suc, ◌≡◌, ◌≢◌, refl, ap, ◌∙◌, Bool, List, [], ◌∷◌, ◌++◌, Text, length, All, ok, text_eq,
  Bool-cases, inl, inr,
}
use mathlib.Core.Path.{ap₂, subst}
use mysql8_audit_proxy.ServerConfig.Query.{
  Server, Query, Op, op_eq, op_other, Column, is_user, is_password, is_unknown, column_of,
  get_string, after_string, selection, where_column, where_loop, where_rows,
  where_columns_to_config,
}

selection-All {ℓ} :
    (P : Server → Type ℓ) (f : Server → Bool) (servers : List Server)
    → All P servers
    → All P (selection f servers)
unfolding selection
selection-All P f [] h = h
selection-All P f (s ∷ servers) h = elim (Bool-cases (f s)) [
  | inl q ↦ rw q (h.0, selection-All P f servers h.1)
  | inr q ↦ rw q (selection-All P f servers h.1)
]

module _ {ℓ} (P : Server → Type ℓ) (servers : List Server) (h : All P servers) where
  where_column-All :
      (column : Column) (v : Text) (res : List Server)
      → All P res
      → All P (where_column column v servers res)
  unfolding where_column
  where_column-All is_user v res hr = selection-All P _ servers h
  where_column-All is_password v res hr = selection-All P _ servers h
  where_column-All is_unknown v res hr = hr

  where_loop-All :
      (columns values : List Text) (res : List Server)
      → All P res
      → All P (where_loop columns values servers res)
  unfolding where_loop
  where_loop-All [] values res hr = hr
  where_loop-All (c ∷ columns) values res hr =
      where_loop-All columns (after_string values)
        (where_column (column_of c) (get_string values) servers res)
        (where_column-All (column_of c) (get_string values) res hr)

  where_rows-All :
      (columns values : List Text) (op : Op) (rows : List Server)
      → where_rows columns values op servers ≡ ok rows
      → All P rows
  where_rows-All [] values op rows e = subst (All P) (cc) h
  where_rows-All (c ∷ columns) values op_eq rows e =
      subst (All P) (cc) (where_loop-All (c ∷ columns) values [] tt)
  where_rows-All (c ∷ columns) values (op_other n) rows e = cc

  -- What a WHERE clause selects is part of the table: whatever holds of each of the table's rows
  -- holds of each selected one.
  pub where_columns_to_config-All :
      (p : Query) (rows : List Server) → where_columns_to_config p servers ≡ ok rows → All P rows
  unfolding where_columns_to_config
  where_columns_to_config-All p rows e =
      where_rows-All p.where_columns p.where_values p.where_op rows e

-- The value at a place, or none.
abbrev pub value_at : ℕ → List Text → Text
value_at zero values = get_string values
value_at (suc n) values = value_at n (after_string values)

where_column-known :
    (column : Column) (v : Text) (servers res res' : List Server)
    → column ≢ is_unknown
    → where_column column v servers res ≡ where_column column v servers res'
unfolding where_column
where_column-known is_user v servers res res' h = refl
where_column-known is_password v servers res res' h = refl
where_column-known is_unknown v servers res res' h = absurd (h refl)

where_loop-append :
    (columns : List Text) (c : Text) (values : List Text) (servers res : List Server)
    → column_of c ≢ is_unknown
    → where_loop (columns ++ (c ∷ [])) values servers res
      ≡ where_column (column_of c) (value_at (length columns) values) servers []
unfolding where_loop
where_loop-append [] c values servers res h =
    where_column-known (column_of c) (get_string values) servers res [] h
where_loop-append (d ∷ columns) c values servers res h =
    where_loop-append columns c (after_string values) servers
      (where_column (column_of d) (get_string values) servers res) h

where_rows-append :
    (columns : List Text) (c : Text) (values : List Text) (servers : List Server)
    → column_of c ≢ is_unknown
    → where_rows (columns ++ (c ∷ [])) values op_eq servers
      ≡ ok (where_column (column_of c) (value_at (length columns) values) servers [])
where_rows-append [] c values servers h = ap ok (where_loop-append [] c values servers [] h)
where_rows-append (d ∷ columns) c values servers h =
    ap ok (where_loop-append (d ∷ columns) c values servers [] h)

-- Of several conditions under the operator `=` only the last one counts, if its column is one of
-- the table's.
pub where_columns_to_config-last :
    (p : Query) (columns : List Text) (c : Text) (servers : List Server)
    → p.where_columns ≡ columns ++ (c ∷ [])
    → p.where_op ≡ op_eq
    → column_of c ≢ is_unknown
    → where_columns_to_config p servers
      ≡ ok (where_column (column_of c) (value_at (length columns) p.where_values) servers [])
unfolding where_columns_to_config
where_columns_to_config-last p columns c servers hc ho h =
    ap₂ (λ cs op. where_rows cs p.where_values op servers) hc ho
    ∙ where_rows-append columns c p.where_values servers h

-- A condition on the user selects the servers of that user.
pub where_columns_to_config-user :
    (p : Query) (c : Text) (servers : List Server)
    → p.where_columns ≡ c ∷ []
    → p.where_op ≡ op_eq
    → column_of c ≡ is_user
    → where_columns_to_config p servers
      ≡ ok (selection (λ s. text_eq s.user (value_at 0 p.where_values)) servers)
unfolding where_column
where_columns_to_config-user p c servers hc ho hu =
    where_columns_to_config-last p [] c servers hc ho (λ e. cc)
    ∙ ap (λ col. ok (where_column col (value_at 0 p.where_values) servers [])) hu
