-- ===== src/ServerConfig/Manager/Delete.antt =====
-- What a DELETE does to the servers in memory.
use mysql8_audit_proxy.Base.{
  ◌+◌, ◌≡◌, ◌≢◌, refl, sym, ap, ◌∙◌, Bool, false, ◌||◌, not, Bool-cases, List, [], ◌∷◌, Text,
  length, All, Result, ok, err, arith, inl, inr, text_eq, text_eq→eq,
}
use mathlib.Core.Path.{fun_ext}
use mysql8_audit_proxy.Base.Action.{◌>>◌, proceed, modify}
use mysql8_audit_proxy.ServerConfig.Query.{
  Server, Query, op_eq, is_user, column_of, ConfigError, selection, where_columns_to_config,
}
use mysql8_audit_proxy.ServerConfig.Query.Where.{where_columns_to_config-user, value_at}
use mysql8_audit_proxy.ServerConfig.Config.Indexed.{IsFresh, IsUnique}
use mysql8_audit_proxy.ServerConfig.Manager.{
  config, not_found_data, Work, lift, reject_empty, is_listed, delete_rows, delete,
}

-- Some row has the user.
abbrev pub have_user : Text → List Server → Bool
have_user u [] = false
have_user u (t ∷ rows) = text_eq u t.user || have_user u rows

abbrev pub not_listed : List Server → Server → Bool
not_listed rows s = not (have_user s.user rows)

is_listed-have_user : (s : Server) (rows : List Server) → is_listed s rows ≡ have_user s.user rows
unfolding is_listed
is_listed-have_user s [] = refl
is_listed-have_user s (t ∷ rows) = ap (λ b. text_eq s.user t.user || b) (is_listed-have_user s rows)

delete_rows-selection :
    (rows servers : List Server)
    → ((delete_rows rows servers).0 ≡ selection (not_listed rows) servers)
      × (length (delete_rows rows servers).0 + (delete_rows rows servers).1 ≡ length servers)
unfolding delete_rows selection
delete_rows-selection rows [] = (refl, refl)
delete_rows-selection rows (s ∷ servers) = elim (Bool-cases (have_user s.user rows)) [
  | inl q ↦ rw (is_listed-have_user s rows, q) (ground (arith, delete_rows-selection rows servers))
  | inr q ↦ rw (is_listed-have_user s rows, q) (ground (arith, delete_rows-selection rows servers))
]

selection-IsFresh :
    (f : Server → Bool) (u : Text) (servers : List Server)
    → IsFresh u servers
    → IsFresh u (selection f servers)
unfolding selection
selection-IsFresh f u [] h = h
selection-IsFresh f u (s ∷ servers) h = elim (Bool-cases (f s)) [
  | inl q ↦ rw q (h.0, selection-IsFresh f u servers h.1)
  | inr q ↦ rw q (selection-IsFresh f u servers h.1)
]

pub selection-IsUnique :
    (f : Server → Bool) (servers : List Server) → IsUnique servers → IsUnique (selection f servers)
unfolding selection
selection-IsUnique f [] h = h
selection-IsUnique f (s ∷ servers) h = elim (Bool-cases (f s)) [
  | inl q ↦ rw q (selection-IsFresh f s.user servers h.0, selection-IsUnique f servers h.1)
  | inr q ↦ rw q (selection-IsUnique f servers h.1)
]

-- What is left of the work where rows were deleted.
pub record Deleted (rows : List Server) (w w' : Work) : Type 0 where
  pub some_rows : rows ≢ []
  pub kept : w'.servers ≡ selection (not_listed rows) w.servers
  pub counted : length w'.servers + w'.count ≡ length w.servers

proceed-Deleted :
    (r : Result ConfigError (List Server)) (w w' : Work)
    → proceed (lift config r w) (λ rows.
      reject_empty not_found_data rows
      >> modify (λ w. record w {
        servers = (delete_rows rows w.servers).0;
        count = (delete_rows rows w.servers).1;
      }))
      ≡ (ok tt, w')
    → (rows : List Server) × (r ≡ ok rows) × Deleted rows w w'
proceed-Deleted (err e) w w' e' = cc
proceed-Deleted (ok []) w w' e = cc
proceed-Deleted (ok (s ∷ rows)) w w' e = (
  s ∷ rows,
  refl,
  record {
    some_rows = λ p. cc;
    kept = ap (λ r. r.1.servers) (sym e) ∙ (delete_rows-selection (s ∷ rows) w.servers).0;
    counted = omega (
      arith,
      ap (λ r. length r.1.servers) e,
      ap (λ r. r.1.count) e,
      (delete_rows-selection (s ∷ rows) w.servers).1,
    );
  },
)

-- A DELETE that succeeds has removed the servers that have a user of the selected rows, one row at
-- least, has kept the others in their order, and has counted those removed.
pub delete-ok :
    (p : Query) (w w' : Work)
    → delete p w ≡ (ok tt, w')
    → (rows : List Server) × (where_columns_to_config p w.servers ≡ ok rows) × Deleted rows w w'
unfolding delete
delete-ok p w w' e = proceed-Deleted (where_columns_to_config p w.servers) w w' e

selection-user :
    (v : Text) (servers : List Server)
    → All (λ s. s.user ≡ v) (selection (λ s. text_eq s.user v) servers)
unfolding selection
selection-user v [] = tt
selection-user v (s ∷ servers) = elim (Bool-cases (text_eq s.user v)) [
  | inl q ↦ rw q (text_eq→eq s.user v q, selection-user v servers)
  | inr q ↦ rw q (selection-user v servers)
]

have_user-user :
    (s : Server) (v : Text) (rows : List Server)
    → All (λ t. t.user ≡ v) rows
    → rows ≢ []
    → have_user s.user rows ≡ text_eq s.user v
have_user-user s v [] h ne = absurd (ne refl)
have_user-user s v (t ∷ []) h ne = rw h.0 (ground arith)
have_user-user s v (t ∷ u ∷ rows) h ne =
    rw (h.0, have_user-user s v (u ∷ rows) h.1 (λ e. cc)) (ground arith)

-- A DELETE that succeeds, with the one condition that the user be a given one, leaves exactly the
-- servers of the other users, in their order.
pub delete-user :
    (p : Query) (c : Text) (w w' : Work)
    → p.where_columns ≡ c ∷ []
    → p.where_op ≡ op_eq
    → column_of c ≡ is_user
    → delete p w ≡ (ok tt, w')
    → w'.servers ≡ selection (λ s. not (text_eq s.user (value_at 0 p.where_values))) w.servers
delete-user p c w w' hc ho hu e =
    let v = value_at 0 p.where_values in
    let (rows, q, d) = delete-ok p w w' e in
    let same : rows ≡ selection (λ s. text_eq s.user v) w.servers =
      cc (where_columns_to_config-user p c w.servers hc ho hu) in
    d.kept
    ∙ ap (λ f. selection f w.servers)
        (fun_ext (λ s.
          ap not (have_user-user s v rows (rw same (selection-user v w.servers)) d.some_rows)))

-- If no user has two rows, none has after a DELETE that succeeds.
pub delete-IsUnique :
    (p : Query) (w w' : Work) → delete p w ≡ (ok tt, w') → IsUnique w.servers → IsUnique w'.servers
delete-IsUnique p w w' e h =
    let (rows, q, d) = delete-ok p w w' e in
    rw d.kept (selection-IsUnique (not_listed rows) w.servers h)
