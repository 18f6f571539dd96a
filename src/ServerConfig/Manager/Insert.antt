-- ===== src/ServerConfig/Manager/Insert.antt =====
-- What an INSERT does to the servers in memory.
use mysql8_audit_proxy.Base.{
  ℕ, ◌+◌, ◌-◌, ◌≡◌, refl, sym, ap, ◌∙◌, Option, none, some, Option-cases, List, [], ◌∷◌, ◌++◌, Text,
  length, Result, ok, err, arith, inl, inr, append_assoc, append-nil, length-append,
}
use mysql8_audit_proxy.Base.Action.{Action, proceed}
use mysql8_audit_proxy.ServerConfig.Crypt.{Gcm, CryptError, encrypt}
use mysql8_audit_proxy.ServerConfig.Query.{Server, Query, ConfigError, columns_to_config}
use mysql8_audit_proxy.ServerConfig.Config.{index_of}
use mysql8_audit_proxy.ServerConfig.Config.Indexed.{
  IsUnique, IsIndexed, append-IsIndexed, append-IsUnique,
}
use mysql8_audit_proxy.ServerConfig.Manager.{
  ManagerError, crypt, config, already_exists, Work, lift, encrypt_next, append_server,
  insert_server, insert_servers, insert,
}

-- The index agrees with the servers, and no user is there twice.
pub record IsValid (w : Work) : Type 0 where
  pub indexed : IsIndexed w.servers w.index
  pub unique : IsUnique w.servers

-- A server whose user has no entry can be appended.
pub append_server-IsValid :
    (s : Server) (w : Work)
    → IsValid w
    → index_of s.user w.index ≡ none
    → IsValid (append_server s w)
append_server-IsValid s w h q =
    let place : length (w.servers ++ (s ∷ [])) - 1 ≡ length w.servers =
      omega (arith, length-append w.servers (s ∷ [])) in
    record {
      indexed = rw place (append-IsIndexed w.servers w.index s h.indexed);
      unique = append-IsUnique w.servers s h.unique (h.indexed.absent s.user q);
    }

-- What one round of the loop comes to.
data Inserted (gcm : Gcm) (nonces : ℕ → Option Text) (key : Text) (s : Server) (w : Work)
    : Result ManagerError (Unit {0}) × Work → Type 0 where
  known :
      (i : ℕ)
      → index_of s.user w.index ≡ some i
      → Inserted gcm nonces key s w (err (already_exists s.user), w)
  unsealed :
      {e : CryptError}
      → encrypt gcm key s.password (nonces w.drawn) ≡ err e
      → Inserted gcm nonces key s w (err (crypt e), record w { drawn = w.drawn + 1 })
  added :
      (c : Text)
      → index_of s.user w.index ≡ none
      → encrypt gcm key s.password (nonces w.drawn) ≡ ok c
      → Inserted gcm nonces key s w
          (ok tt, append_server (record s { password = c }) (record w { drawn = w.drawn + 1 }))

module _ (gcm : Gcm) (nonces : ℕ → Option Text) (key : Text) where
  insert_server-cases :
      (s : Server) (w : Work) → Inserted gcm nonces key s w (insert_server gcm nonces key s w)
  unfolding insert_server encrypt_next
  insert_server-cases s w = elim (Option-cases (index_of s.user w.index)) [
    | inr (i, q) ↦ rw q (known i q)
    | inl q ↦ sealed (encrypt gcm key s.password (nonces w.drawn)) refl q
  ]
    where
      sealed :
          (r : Result CryptError Text)
          → encrypt gcm key s.password (nonces w.drawn) ≡ r
          → index_of s.user w.index ≡ none
          → Inserted gcm nonces key s w (insert_server gcm nonces key s w)
      sealed (ok c) e q = rw (q, e) (added c q e)
      sealed (err x) e q = rw (q, e) (unsealed e)

  -- Whatever it comes to, the index stays in agreement and no user is doubled.
  Inserted-IsValid :
      (s : Server) (w : Work) (r : Result ManagerError (Unit {0}) × Work)
      → Inserted gcm nonces key s w r
      → IsValid w
      → IsValid r.1
  Inserted-IsValid s w r (known i q) h = h
  Inserted-IsValid s w r (unsealed e) h = record { indexed = h.indexed; unique = h.unique }
  Inserted-IsValid s w r (added c q e) h =
      append_server-IsValid (record s { password = c }) (record w { drawn = w.drawn + 1 })
        (record { indexed = h.indexed; unique = h.unique }) q

  proceed-IsValid :
      (r : Result ManagerError (Unit {0}) × Work) (n : Action ManagerError Work (Unit {0}))
      → IsValid r.1
      → ((w : Work) → IsValid w → IsValid (n w).1)
      → IsValid (proceed r (λ _. n)).1
  proceed-IsValid (ok u, w) n h k = k w h
  proceed-IsValid (err e, w) n h k = h

  insert_servers-IsValid :
      (servers : List Server) (w : Work)
      → IsValid w
      → IsValid (insert_servers gcm nonces key servers w).1
  unfolding insert_servers
  insert_servers-IsValid [] w h = h
  insert_servers-IsValid (s ∷ servers) w h =
      proceed-IsValid (insert_server gcm nonces key s w) (insert_servers gcm nonces key servers)
        (Inserted-IsValid s w _ (insert_server-cases s w) h) (insert_servers-IsValid servers)

  -- If the index agrees with the servers and no user has two rows, an INSERT keeps it so, whether
  -- it succeeds or stops at an error.
  pub insert-IsValid : (p : Query) (w : Work) → IsValid w → IsValid (insert gcm nonces key p w).1
  unfolding insert
  insert-IsValid p w h = given (columns_to_config p)
    where
      given :
          (r : Result ConfigError (List Server))
          → IsValid (proceed (lift config r w) (insert_servers gcm nonces key)).1
      given (ok servers) = insert_servers-IsValid servers w h
      given (err e) = h

  -- The new rows are the given ones, each with its password encrypted.
  abbrev pub Sealed : List Server → List Server → Type 0
  Sealed [] [] = Unit
  Sealed (s ∷ servers) (t ∷ rows) =
      ((t.user ≡ s.user) × ((n : Option Text) × (encrypt gcm key s.password n ≡ ok t.password)))
      × Sealed servers rows
  Sealed [] (t ∷ rows) = ⊥
  Sealed (s ∷ servers) [] = ⊥

  -- What an action that succeeded has added.
  record Added (servers : List Server) (w w' : Work) : Type 0 where
    rows : List Server
    appended : w'.servers ≡ w.servers ++ rows
    counted : w'.count ≡ w.count + length servers
    sealed : Sealed servers rows

  insert_servers-ok :
      (servers : List Server) (w w' : Work) (u : Unit {0})
      → insert_servers gcm nonces key servers w ≡ (ok u, w')
      → Added servers w w'
  unfolding insert_servers
  insert_servers-ok [] w w' u e = record {
    rows = [];
    appended = ap (λ r. r.1.servers) (sym e) ∙ sym (append-nil w.servers);
    counted = omega (arith, ap (λ r. r.1.count) e);
    sealed = tt;
  }
  insert_servers-ok (s ∷ servers) w w' u e =
      step (insert_server gcm nonces key s w) (insert_server-cases s w)
        (λ v. insert_servers-ok servers v w' u) e
    where
      step :
          (r : Result ManagerError (Unit {0}) × Work)
          → Inserted gcm nonces key s w r
          → ((v : Work) → insert_servers gcm nonces key servers v ≡ (ok u, w') → Added servers v w')
          → proceed r (λ _. insert_servers gcm nonces key servers) ≡ (ok u, w')
          → Added (s ∷ servers) w w'
      step r (known i q) ih e = cc
      step r (unsealed q) ih e = cc
      step r (added c q x) ih e =
          let a = ih _ e in
          record {
            rows = record s { password = c } ∷ a.rows;
            appended = a.appended ∙ append_assoc w.servers (record s { password = c } ∷ []) a.rows;
            counted = omega (arith, a.counted);
            sealed = ((refl, (nonces w.drawn, x)), a.sealed);
          }

  -- An INSERT that succeeds has appended the rows of the statement in their order, their passwords
  -- encrypted, and has counted them.
  pub insert-ok :
      (p : Query) (w w' : Work)
      → insert gcm nonces key p w ≡ (ok tt, w')
      → (servers : List Server) × (columns_to_config p ≡ ok servers)
        × ((rows : List Server) × (w'.servers ≡ w.servers ++ rows) × Sealed servers rows)
        × (w'.count ≡ w.count + length servers)
  unfolding insert
  insert-ok p w w' e = given (columns_to_config p) refl e
    where
      given :
          (r : Result ConfigError (List Server))
          → columns_to_config p ≡ r
          → proceed (lift config r w) (insert_servers gcm nonces key) ≡ (ok tt, w')
          → (servers : List Server) × (columns_to_config p ≡ ok servers)
            × ((rows : List Server) × (w'.servers ≡ w.servers ++ rows) × Sealed servers rows)
            × (w'.count ≡ w.count + length servers)
      given (ok servers) q e =
          let a = insert_servers-ok servers w w' tt e in
          (servers, q, (a.rows, a.appended, a.sealed), a.counted)
      given (err x) q e = cc

  -- A row of a user who has none yet is appended, its password encrypted.
  pub insert-one :
      (p : Query) (s : Server) (c : Text) (w : Work)
      → columns_to_config p ≡ ok (s ∷ [])
      → index_of s.user w.index ≡ none
      → encrypt gcm key s.password (nonces w.drawn) ≡ ok c
      → insert gcm nonces key p w
        ≡ (ok tt, append_server (record s { password = c }) (record w { drawn = w.drawn + 1 }))
  unfolding insert insert_servers insert_server encrypt_next
  insert-one p s c w hp hi hc = rw (hp, hi, hc)
