-- ===== src/ServerConfig/Runs/Statements.antt =====
-- The theorems on queries, encryption and storage at concrete inputs.
use mysql8_audit_proxy.Base.{
  ◌<◌, ◌≡◌, ◌≢◌, ◌↔◌, refl, true, none, some, [], ◌∷◌, Text, codes, length, replicate, All, arith,
  ok, err, text_eq, to_lower,
}
use mysql8_audit_proxy.Base.Base64
use mysql8_audit_proxy.Base.Bytes.{IsByte}
use mysql8_audit_proxy.ServerConfig.Crypt.{
  generate_key, key_ok, nonce_size, slice_panic, encrypt, decrypt, decrypt-encrypt,
  decrypt-of_encrypt, decrypt-panics_iff,
}
use mysql8_audit_proxy.ServerConfig.Query.{
  Server, Query, op_eq, is_unknown, column_of, new_parsed_query, user_column, password_column,
  where_loop, where_column, selection, where_columns_to_config,
}
use mysql8_audit_proxy.ServerConfig.Query.Where.{where_columns_to_config-last}
use mysql8_audit_proxy.ServerConfig.Config.{Config, new_config, default_config, get_config}
use mysql8_audit_proxy.ServerConfig.Service.{Call, insert, update, delete}
use mysql8_audit_proxy.ServerConfig.Service.Storage.{
  KeepsFile, change_error-KeepsFile, get_config-written,
}
use mysql8_audit_proxy.ServerConfig.Runs.{
  plain, framed_json, framed_json-round, key, nonce, nonce-IsNonce, nonces, conf, draws,
  column_of-password, where_al,
}

eve : Server
eve = record { user = codes "eve"; password = codes "pw" }

-- WHERE User = 'al' AND Password = 'AAAA'
abbrev where_both : Query
where_both = record new_parsed_query {
  where_columns = user_column ∷ password_column ∷ [];
  where_values = codes "al" ∷ codes "AAAA" ∷ [];
  where_op = op_eq;
}

password_column-known : column_of password_column ≢ is_unknown
password_column-known e = cc column_of-password

where_columns_to_config-last_example :
    where_columns_to_config where_both conf.servers
    ≡ ok (where_column (column_of password_column) (codes "AAAA") conf.servers [])
where_columns_to_config-last_example =
    where_columns_to_config-last where_both (user_column ∷ []) password_column conf.servers refl
      refl password_column-known

-- No row has both, but one is selected.
where_both_selects :
    where_columns_to_config where_both conf.servers
    ≡ ok (record { user = codes "root"; password = codes "AAAA" } ∷ [])
unfolding where_columns_to_config where_loop where_column selection column_of to_lower text_eq
where_both_selects = refl

pw-IsByte : All IsByte (codes "pw")
pw-IsByte = (omega arith, (omega arith, tt))

sealed_pw :
    (c : Text) × (encrypt plain key (codes "pw") (some nonce) ≡ ok c)
    × (decrypt plain key c ≡ ok (codes "pw"))
sealed_pw =
    decrypt-encrypt plain key (codes "pw") nonce refl nonce-IsNonce.0 nonce-IsNonce.1 pw-IsByte

decrypt-of_encrypt_example : decrypt plain key sealed_pw.0 ≡ ok (codes "pw")
decrypt-of_encrypt_example =
    decrypt-of_encrypt plain key (codes "pw") sealed_pw.0 (some nonce) nonce-IsNonce pw-IsByte
      sealed_pw.1

decrypt-panics_iff_example : (decrypt plain key (codes "AAAA") ≡ err slice_panic) ↔ (
    (key_ok key ≡ true)
    × ((b : Text) × (Base64.decode (codes "AAAA") ≡ some b) × (length b < nonce_size)))
decrypt-panics_iff_example = decrypt-panics_iff plain key (codes "AAAA")

abbrev call : Call
call = record { draws = draws; nonces = nonces; fault = none }

sealed_pass :
    (c : Text) × (encrypt plain (replicate 32 5) (codes "pass") (some nonce) ≡ ok c)
    × (decrypt plain (replicate 32 5) c ≡ ok (codes "pass"))
sealed_pass =
    decrypt-encrypt plain (replicate 32 5) (codes "pass") nonce refl nonce-IsNonce.0 nonce-IsNonce.1
      (omega arith, (omega arith, (omega arith, (omega arith, tt))))

-- The configuration that a call makes before it reads the file.
abbrev fresh : Config
fresh = record {
  servers = record { user = codes "admin"; password = sealed_pass.0 } ∷ [];
  key = replicate 32 5;
}

new_config-draws : new_config plain draws ≡ ok fresh
unfolding new_config generate_key default_config
new_config-draws = rw (sealed_pass.1)

conf_is_read : get_config plain framed_json draws (some (framed_json.encode conf)) ≡ ok conf
conf_is_read =
    get_config-written plain framed_json draws conf fresh (framed_json-round conf fresh) refl
      new_config-draws

change_error-KeepsFile_example :
    KeepsFile none (insert plain framed_json call where_al none)
    × KeepsFile none (update plain framed_json call where_al none)
    × KeepsFile none (delete plain framed_json call where_al none)
change_error-KeepsFile_example = change_error-KeepsFile plain framed_json call where_al none
