-- ===== src/ServerConfig/Accounts/Deleting.antt =====
-- A DELETE on the servers in memory does what it does on the table.
use mysql8_audit_proxy.Base.{
  ◌≡◌, refl, Bool, true, false, not, Bool-cases, inl, inr, List, [], ◌∷◌, Text, text_eq, ok,
}
use mysql8_audit_proxy.ServerConfig.Crypt.{Gcm}
use mysql8_audit_proxy.ServerConfig.Query.{
  Server, Query, op_eq, is_user, column_of, selection, where_columns_to_config,
}
use mysql8_audit_proxy.ServerConfig.Query.Where.{where_columns_to_config-user, value_at}
use mysql8_audit_proxy.ServerConfig.Config.{Json}
use mysql8_audit_proxy.ServerConfig.Config.Indexed.{IsUnique}
use mysql8_audit_proxy.ServerConfig.Manager.{Work, delete_rows, delete}
use mysql8_audit_proxy.ServerConfig.Manager.Delete.{delete-user, selection-IsUnique}
use mysql8_audit_proxy.ServerConfig.Accounts.{has_user, delete_from, IsReadable, Holds, Follows}

abbrev is_cons : List Server → Bool
is_cons [] = false
is_cons (s ∷ servers) = true

module _ (gcm : Gcm) (json : Json) (readable : IsReadable json) (key : Text) where
  selection-Holds :
      (u : Text) (servers table : List Server)
      → Holds gcm json readable key servers table
      → Holds gcm json readable key
          (selection (λ s. not (text_eq s.user u)) servers)
          (selection (λ s. not (text_eq s.user u)) table)
  unfolding selection
  selection-Holds u [] [] h = tt
  selection-Holds u [] (a ∷ table) h = absurd h
  selection-Holds u (s ∷ servers) [] h = absurd h
  selection-Holds u (s ∷ servers) (a ∷ table) h = elim (Bool-cases (text_eq a.user u)) [
    | inl q ↦ rw (h.0.0, q) (selection-Holds u servers table h.1)
    | inr q ↦
        let other : text_eq s.user u ≡ false = rw h.0.0 q in
        rw (other, q) (h.0, selection-Holds u servers table h.1)
  ]

  selection-has_user :
      (u : Text) (servers table : List Server)
      → Holds gcm json readable key servers table
      → is_cons (selection (λ s. text_eq s.user u) servers) ≡ has_user u table
  unfolding selection
  selection-has_user u [] [] h = refl
  selection-has_user u [] (a ∷ table) h = absurd h
  selection-has_user u (s ∷ servers) [] h = absurd h
  selection-has_user u (s ∷ servers) (a ∷ table) h = elim (Bool-cases (text_eq a.user u)) [
    | inl q ↦ rw (h.0.0, q) refl
    | inr q ↦ rw (h.0.0, q) (selection-has_user u servers table h.1)
  ]

  -- A DELETE of one user.
  pub delete-Follows :
      (p : Query) (column : Text) (table : List Server) (w : Work)
      → p.where_columns ≡ column ∷ []
      → p.where_op ≡ op_eq
      → column_of column ≡ is_user
      → Holds gcm json readable key w.servers table
      → IsUnique w.servers
      → Follows gcm json readable key (delete_from (value_at 0 p.where_values) table) (delete p w)
  delete-Follows p column table w hc ho hu h distinct =
      given (selection (λ s. text_eq s.user v) w.servers)
        (where_columns_to_config-user p column w.servers hc ho hu)
        (selection-has_user v w.servers table h)
    where
      v : Text
      v = value_at 0 p.where_values

      given :
          (rows : List Server)
          → where_columns_to_config p w.servers ≡ ok rows
          → is_cons rows ≡ has_user v table
          → Follows gcm json readable key (delete_from v table) (delete p w)
      given [] found none_there = rw (← none_there) (unfold delete in rw found refl)
      given (x ∷ rows) found there =
          let (kept, n) = delete_rows (x ∷ rows) w.servers in
          let w' : Work = record w { servers = kept; count = n } in
          let done : delete p w ≡ (ok tt, w') = unfold delete in rw found refl in
          let rest = delete-user p column w w' hc ho hu done in
          rw (← there, done)
            (
              rw rest (selection-Holds v w.servers table h),
              rw rest (selection-IsUnique (λ s. not (text_eq s.user v)) w.servers distinct),
            )
