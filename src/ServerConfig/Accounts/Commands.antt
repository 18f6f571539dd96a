-- ===== src/ServerConfig/Accounts/Commands.antt =====
-- The commands of the console, one after the other, do to the file what they do to the table.
use mysql8_audit_proxy.Base.{
  ◌≡◌, refl, ap, ◌∙◌, map, true, Option, none, some, inl, inr, List, [], ◌∷◌, Text, codes, All,
  arith, Result, ok, err,
}
use mysql8_audit_proxy.Base.Bytes.{IsByte}
use mysql8_audit_proxy.ServerConfig.Crypt.{Gcm, key_ok, generate_key, random_bytes, decrypt-encrypt}
use mysql8_audit_proxy.ServerConfig.Query.{Server}
use mysql8_audit_proxy.ServerConfig.Config.{
  Config, Json, Draws, default_config, new_config, get_config, put_config,
}
use mysql8_audit_proxy.ServerConfig.Config.Indexed.{make_index-IsIndexed}
use mysql8_audit_proxy.ServerConfig.Manager.{ManagerError, Work}
use mysql8_audit_proxy.ServerConfig.Manager
use mysql8_audit_proxy.ServerConfig.Service.{Call, start, finish, change, insert, update, delete}
use mysql8_audit_proxy.ServerConfig.Service.Storage.{get_config-written}
use mysql8_audit_proxy.ServerConfig.Accounts.{
  Statement, insert_rows, set_password, delete_user, apply, left, error_of, apply_all, manage,
  manage_all, IsReadable, Works, Holds, Follows, Sound, default_table, Stored, Fits,
}
use mysql8_audit_proxy.ServerConfig.Accounts.Inserting.{encrypt-IsJson, insert-Follows}
use mysql8_audit_proxy.ServerConfig.Accounts.Updating.{update-Follows}
use mysql8_audit_proxy.ServerConfig.Accounts.Deleting.{delete-Follows}

module _ (gcm : Gcm) (json : Json) (readable : IsReadable json) where
  open readable use {IsJson}

  -- The configuration that is made where there is no file.
  record Installed (draws : Draws) : Type 0 where
    conf : Config
    made : new_config gcm draws ≡ ok conf
    sound : Sound gcm json readable (default_table gcm json readable) conf

  new_config-Installed : (call : Call) → Works call → Installed call.draws
  unfolding new_config default_config generate_key random_bytes
  new_config-Installed call w =
      let fits : key_ok w.key ≡ true = ground (arith, w.key_length) in
      let letters : All IsByte (codes "pass") =
        (omega arith, (omega arith, (omega arith, (omega arith, tt)))) in
      let (c, sealed, opened) =
        decrypt-encrypt gcm w.key (codes "pass") w.admin_nonce fits w.nonce_fits.0 w.nonce_fits.1
          letters in
      record {
        conf = record { servers = record { user = codes "admin"; password = c } ∷ []; key = w.key };
        made = rw (w.new_key, w.new_nonce, sealed) refl;
        sound = record {
          key_fits = fits;
          holds = (
            (
              refl,
              opened,
              (
                readable.codes-IsJson,
                encrypt-IsJson gcm json readable w.key (codes "pass") c (some w.admin_nonce) sealed,
              ),
            ),
            tt,
          );
          unique = (tt, tt);
        };
      }

  Holds-IsJson :
      (key : Text) (servers table : List Server)
      → Holds gcm json readable key servers table
      → All (λ s. IsJson s.user × IsJson s.password) servers
  Holds-IsJson key [] table h = tt
  Holds-IsJson key (s ∷ servers) [] h = absurd h
  Holds-IsJson key (s ∷ servers) (a ∷ table) h = (h.0.2, Holds-IsJson key servers table h.1)

  -- What a call reads.
  pub get_config-Sound :
      (call : Call) (table : List Server) (file : Option Text)
      → Works call
      → Stored gcm json readable table file
      → (conf : Config) × (get_config gcm json call.draws file ≡ ok conf)
        × Sound gcm json readable table conf
  unfolding get_config
  get_config-Sound call table file w (inl (absent, same)) =
      let n = new_config-Installed call w in (n.conf, rw (absent, n.made) refl, rw same n.sound)
  get_config-Sound call table file w (inr h) =
      let n = new_config-Installed call w in
      let s = h.sound in
      let again =
        readable.round h.conf n.conf (Holds-IsJson h.conf.key h.conf.servers table s.holds) in
      let read = get_config-written gcm json call.draws h.conf n.conf again s.key_fits n.made in
      (h.conf, ap (get_config gcm json call.draws) h.file_eq ∙ read, s)

  finish-Stored :
      (call : Call) (table : List Server) (file : Option Text) (conf : Config)
      (spec : Result ManagerError (List Server)) (r : Result ManagerError (Unit {0}) × Work)
      → call.fault ≡ none
      → Stored gcm json readable table file
      → key_ok conf.key ≡ true
      → Follows gcm json readable conf.key spec r
      → ((finish json call.fault file conf r).error ≡ error_of spec)
        × Stored gcm json readable (left table spec) (finish json call.fault file conf r).file
  unfolding finish put_config
  finish-Stored call table file conf (ok t) (ok u, w) writes h k f = rw writes (
    refl,
    inr (record {
      conf = record conf { servers = w.servers };
      file_eq = refl;
      sound = record { key_fits = k; holds = f.0; unique = f.1 };
    }),
  )
  finish-Stored call table file conf (err e) (err x, w) writes h k f = (ap some f, h)
  finish-Stored call table file conf (ok t) (err x, w) writes h k f = absurd f
  finish-Stored call table file conf (err e) (ok u, w) writes h k f = absurd f

  manage-Stored :
      (call : Call) (c : Statement) (table : List Server) (file : Option Text)
      → Works call
      → Fits gcm json readable c
      → Stored gcm json readable table file
      → ((manage gcm json call c file).error ≡ error_of (apply c table))
        × Stored gcm json readable (left table (apply c table)) (manage gcm json call c file).file
  unfolding insert update delete change start
  manage-Stored call (insert_rows p) table file w fit h =
      let (conf, read, s) = get_config-Sound call table file w h in
      rw read (
        finish-Stored call table file conf (apply (insert_rows p) table)
          (Manager.insert gcm call.nonces conf.key p (start conf)) w.writes h s.key_fits
          (insert-Follows gcm json readable conf.key call.nonces w.nonce w.nonces s.key_fits p table
            (start conf) fit s.holds
            (record { indexed = make_index-IsIndexed conf; unique = s.unique })))
  manage-Stored call (set_password p) table file w fit h =
      let (conf, read, s) = get_config-Sound call table file w h in
      rw read (
        finish-Stored call table file conf (apply (set_password p) table)
          (Manager.update gcm call.nonces conf.key p (start conf)) w.writes h s.key_fits
          (update-Follows gcm json readable conf.key call.nonces w.nonce w.nonces s.key_fits p table
            (start conf) fit s.holds
            (record { indexed = make_index-IsIndexed conf; unique = s.unique })))
  manage-Stored call (delete_user p) table file w (column, hc, ho, hu) h =
      let (conf, read, s) = get_config-Sound call table file w h in
      rw read (
        finish-Stored call table file conf (apply (delete_user p) table)
          (Manager.delete p (start conf)) w.writes h s.key_fits
          (delete-Follows gcm json readable conf.key p column table (start conf) hc ho hu s.holds
            s.unique))

  -- Any sequence of INSERTs, of UPDATEs of a user's password and of DELETEs by user, each in a call of its own, ends with the errors
  -- and the users and passwords that it has on a plain table, starting with the default table if
  -- there is no file yet: if in no call the random source or the writing of the file fails, and
  -- the rows that are inserted are texts of JSON with passwords of bytes.
  pub manage_all-Stored :
      (cs : List (Call × Statement)) (table : List Server) (file : Option Text)
      → All (λ c. Works c.0 × Fits gcm json readable c.1) cs
      → Stored gcm json readable table file
      → ((manage_all gcm json cs file).0 ≡ (apply_all (map (λ c. c.1) cs) table).0)
        × Stored gcm json readable
            (apply_all (map (λ c. c.1) cs) table).1
            (manage_all gcm json cs file).1
  manage_all-Stored [] table file all h = (refl, h)
  manage_all-Stored ((call, c) ∷ cs) table file all h =
      let (same, next) = manage-Stored call c table file all.0.0 all.0.1 h in
      let (errors, last) =
        manage_all-Stored cs (left table (apply c table)) (manage gcm json call c file).file all.1
          next in
      (rw (same, errors) refl, last)
