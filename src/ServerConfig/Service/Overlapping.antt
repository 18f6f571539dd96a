-- ===== src/ServerConfig/Service/Overlapping.antt =====
-- The two halves of `Insert` of pkg/serverconfig/serverconfig.go, between which other calls may run: no
-- lock spans both. The sessions of the console share the file and the index of the `Manager`.
use mysql8_audit_proxy.Base.{
  ◌≡◌, refl, sym, ap, ◌∙◌, Option, none, some, List, ◌++◌, Text, Result, ok, err,
}
use mysql8_audit_proxy.ServerConfig.Crypt.{Gcm, CryptError}
use mysql8_audit_proxy.ServerConfig.Query.{Server, Query, columns_to_config}
use mysql8_audit_proxy.ServerConfig.Config.{
  Config, Index, make_index, Draws, Json, get_config, WriteFault, mkdir_failed, create_failed,
  encode_failed, put_config,
}
use mysql8_audit_proxy.ServerConfig.Manager
use mysql8_audit_proxy.ServerConfig.Manager.{ManagerError, Work}
use mysql8_audit_proxy.ServerConfig.Manager.Insert.{Sealed, insert-ok}
use mysql8_audit_proxy.ServerConfig.Service.{Call, Outcome, start, finish, change, insert}

-- What all calls share.
pub record Shared : Type 0 where
  pub file : Option Text
  pub index : Index

-- `m.makeIndex(conf)` at the end of `GetConfig`; an error has ended the program before.
abbrev pub remake_index : Result CryptError Config → Index → Index
remake_index (ok conf) index = make_index conf
remake_index (err e) index = index

module _ (gcm : Gcm) (json : Json) where
  -- `conf := m.GetConfig()`
  unfoldable pub read_config : Draws → Shared → Result CryptError Config × Shared
  read_config draws s =
      let r = get_config gcm json draws s.file in (r, record s { index = remake_index r s.index })

  -- `m.insert(p, conf)`, which uses the index that is there by now, and the end of `Insert`.
  unfoldable pub insert_read : Call → Query → Config → Shared → Outcome × Shared
  insert_read call p conf s =
      let r = Manager.insert gcm call.nonces conf.key p (record (start conf) { index = s.index }) in
      let o = finish json call.fault s.file conf r in
      (o, record { file = o.file; index = r.1.index })

  -- Without another call in between, the halves are `Insert`.
  pub insert_read-insert :
      (call : Call) (p : Query) (conf : Config) (s s' : Shared)
      → read_config call.draws s ≡ (ok conf, s')
      → (insert_read call p conf s').0 ≡ insert gcm json call p s.file
  unfolding read_config insert_read insert change start
  insert_read-insert call p conf s s' e =
      let read : get_config gcm json call.draws s.file ≡ ok conf = ap (λ r. r.0) e in
      let file : s'.file ≡ s.file = ap (λ r. r.1.file) (sym e) in
      let index : s'.index ≡ make_index conf =
        ap (λ r. r.1.index) (sym e) ∙ ap (λ r. remake_index r s.index) read in
      rw (read, file, index) refl

  finish-ok :
      (fault : Option WriteFault) (file : Option Text) (conf : Config)
      (r : Result ManagerError (Unit {0}) × Work)
      → (finish json fault file conf r).error ≡ none
      → (r.0 ≡ ok tt)
        × ((finish json fault file conf r).file
            ≡ some (json.encode (record conf { servers = r.1.servers })))
  unfolding finish put_config
  finish-ok fault file conf (err e, w) h = cc
  finish-ok none file conf (ok u, w) h = (refl, refl)
  finish-ok (some mkdir_failed) file conf (ok u, w) h = cc
  finish-ok (some create_failed) file conf (ok u, w) h = cc
  finish-ok (some (encode_failed part)) file conf (ok u, w) h = cc

  -- An INSERT that ends without an error leaves in the file the servers that it had read, with its own
  -- rows behind them, whatever the file and the index have become since: the rows of an INSERT that
  -- another session has ended in between without an error are lost.
  pub insert_read-Overwrites :
      (call : Call) (p : Query) (conf : Config) (s : Shared)
      → (insert_read call p conf s).0.error ≡ none
      → (servers : List Server) × (columns_to_config p ≡ ok servers)
        × ((rows : List Server) × Sealed gcm call.nonces conf.key servers rows
            × ((insert_read call p conf s).1.file
                ≡ some (json.encode (record conf { servers = conf.servers ++ rows }))))
  unfolding insert_read start
  insert_read-Overwrites call p conf s h =
      let w : Work = record (start conf) { index = s.index } in
      let r = Manager.insert gcm call.nonces conf.key p w in
      let f = finish-ok call.fault s.file conf r h in
      let done : r ≡ (ok tt, r.1) = ap (λ q. (q, r.1)) f.0 in
      let (servers, q, (rows, appended, sealed), counted) =
        insert-ok gcm call.nonces conf.key p w r.1 done in
      (
        servers,
        q,
        (rows, sealed, f.1 ∙ ap (λ ss. some (json.encode (record conf { servers = ss }))) appended),
      )
