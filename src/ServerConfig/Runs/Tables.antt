-- ===== src/ServerConfig/Runs/Tables.antt =====
-- The theorems on INSERT, UPDATE and DELETE at concrete inputs.
use mysql8_audit_proxy.Base.{
  ◌+◌, ◌≡◌, refl, List, [], ◌∷◌, ◌++◌, codes, length, All, arith, ap, ok, text_eq, to_lower,
}
use mysql8_audit_proxy.Base.Bytes.{IsByte}
use mysql8_audit_proxy.ServerConfig.Crypt.{encrypt, decrypt, random_bytes}
use mysql8_audit_proxy.ServerConfig.Query.{
  Server, Query, column_of, user_column, password_column, columns_to_config, rows_to_config,
  set_columns, selection, where_column, where_loop, where_columns_to_config, update_columns,
  with_columns,
}
use mysql8_audit_proxy.ServerConfig.Query.Where.{value_at}
use mysql8_audit_proxy.ServerConfig.Config.{make_index, index_from, index_of}
use mysql8_audit_proxy.ServerConfig.Config.Indexed.{IsUnique, make_index-IsIndexed}
use mysql8_audit_proxy.ServerConfig.Manager.{
  Work, encrypt_next, insert_server, insert_servers, insert, update_row, update_rows, update,
  delete,
}
use mysql8_audit_proxy.ServerConfig.Manager.Insert.{IsValid, Sealed, insert-IsValid, insert-ok}
use mysql8_audit_proxy.ServerConfig.Manager.Update.{UpdatedUser}
use mysql8_audit_proxy.ServerConfig.Manager.Passwords.{update-password, update-rename}
use mysql8_audit_proxy.ServerConfig.Manager.Delete.{Deleted, delete-ok}
use mysql8_audit_proxy.ServerConfig.Runs.{
  plain, key, nonce-IsNonce, nonces, conf, column_of-user, column_of-password, insert_eve, where_al,
}

abbrev work : Work
work = record { servers = conf.servers; index = make_index conf; count = 0; drawn = 0 }

work-IsUnique : IsUnique work.servers
work-IsUnique = (((λ e. omega (arith, ap length e)), tt), (tt, tt))

work-IsValid : IsValid work
work-IsValid = record { indexed = make_index-IsIndexed conf; unique = work-IsUnique }

insert_succeeds :
    insert plain nonces key insert_eve work ≡ (ok tt, (insert plain nonces key insert_eve work).1)
unfolding insert insert_servers insert_server encrypt_next encrypt random_bytes columns_to_config
    rows_to_config set_columns with_columns column_of to_lower text_eq make_index index_from
    index_of
insert_succeeds = refl

insert-ok_example :
    (servers : List Server) × (columns_to_config insert_eve ≡ ok servers)
    × ((rows : List Server) × ((insert plain nonces key insert_eve work).1.servers
          ≡ work.servers ++ rows)
        × Sealed plain nonces key servers rows)
    × ((insert plain nonces key insert_eve work).1.count ≡ 0 + length servers)
insert-ok_example =
    insert-ok plain nonces key insert_eve work (insert plain nonces key insert_eve work).1
      insert_succeeds

insert-IsValid_example : IsValid (insert plain nonces key insert_eve work).1
insert-IsValid_example = insert-IsValid plain nonces key insert_eve work work-IsValid

delete_succeeds : delete where_al work ≡ (ok tt, (delete where_al work).1)
unfolding delete where_columns_to_config where_loop where_column selection column_of to_lower
    text_eq
delete_succeeds = refl

delete-ok_example :
    (rows : List Server) × (where_columns_to_config where_al work.servers ≡ ok rows)
    × Deleted rows work (delete where_al work).1
delete-ok_example = delete-ok where_al work (delete where_al work).1 delete_succeeds

-- UPDATE t SET Password = 'pw' WHERE User = 'al'
abbrev set_password : Query
set_password = record where_al { columns = password_column ∷ []; values = codes "pw" ∷ [] }

-- UPDATE t SET User = 'bo' WHERE User = 'al'
abbrev set_user : Query
set_user = record where_al { columns = user_column ∷ []; values = codes "bo" ∷ [] }

update_password_succeeds :
    update plain nonces key set_password work
    ≡ (ok tt, (update plain nonces key set_password work).1)
unfolding update update_rows update_row encrypt_next encrypt random_bytes update_columns set_columns
    with_columns where_columns_to_config where_loop where_column selection column_of to_lower
    text_eq make_index index_from index_of
update_password_succeeds = refl

update_user_succeeds :
    update plain nonces key set_user work ≡ (ok tt, (update plain nonces key set_user work).1)
unfolding update update_rows update_row encrypt_next encrypt random_bytes update_columns set_columns
    with_columns where_columns_to_config where_loop where_column selection column_of to_lower
    text_eq make_index index_from index_of
update_user_succeeds = refl

update-password_example :
    (d : UpdatedUser plain nonces key set_password
      (value_at 0 set_password.where_values)
      work
      (update plain nonces key set_password work).1)
    × (d.set_to.user ≡ d.old.user)
    × (decrypt plain key d.password ≡ ok (codes "pw"))
update-password_example =
    update-password plain nonces key set_password user_column password_column (codes "pw") work
      (update plain nonces key set_password work).1 work-IsValid refl refl column_of-user refl refl
      nonce-IsNonce update_password_succeeds column_of-password (omega arith, (omega arith, tt))

letters-IsByte : All (λ s. All IsByte s.password) work.servers
letters-IsByte = (
  (omega arith, (omega arith, (omega arith, (omega arith, tt)))),
  ((omega arith, (omega arith, (omega arith, (omega arith, tt)))), tt),
)

update-rename_example :
    (d : UpdatedUser plain nonces key set_user
      (value_at 0 set_user.where_values)
      work
      (update plain nonces key set_user work).1)
    × (d.set_to.user ≡ codes "bo")
    × (decrypt plain key d.password ≡ ok d.old.password)
update-rename_example =
    update-rename plain nonces key set_user user_column user_column (codes "bo") work
      (update plain nonces key set_user work).1 work-IsValid refl refl column_of-user refl refl
      nonce-IsNonce update_user_succeeds column_of-user letters-IsByte
