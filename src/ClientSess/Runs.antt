-- ===== src/ClientSess/Runs.antt =====
-- Writes that are printed, and the theorems of ClientSess at them.
use mysql8_audit_proxy.Base.{
  ℕ, ◌^◌, ◌≡◌, refl, Option, none, some, [], ◌∷◌, ◌++◌, Text, codes, length, if◌then◌else◌, ltb,
  take, arith,
}
use mysql8_audit_proxy.LogDecoder.Commands.{hex_digit}
use mysql8_audit_proxy.ClientSess.{
  hex_digits, padded_hex, hex_part, hex_parts, join, hex_column, ascii_parts, dump_line,
  debug_write, conn_write, wrap_conn,
}
use mysql8_audit_proxy.ClientSess.Capability.{
  Flag, client_long_password, client_found_rows, client_long_flag, client_connect_with_db,
  client_no_schema, client_compress, client_odbc, client_local_files, client_ignore_space,
  client_protocol_41, client_interactive, client_ssl, client_ignore_sigpipe, client_transactions,
  client_reserved, client_secure_connection, client_multi_statements, client_multi_results,
  client_ps_multi_results, client_plugin_auth, client_connect_attrs,
  client_plugin_auth_lenenc_client_data, client_can_handle_expired_passwords, client_session_track,
  client_deprecate_eof, client_optional_resultset_metadata, client_zstd_compression_algorithm,
  client_query_attributes, multi_factor_authentication, client_capability_extension,
  client_ssl_verify_server_cert, client_remember_options, print_capability,
}
use mysql8_audit_proxy.ClientSess.Capability.Names.{
  capability_names, names_set, print_capability-names_set,
}
use mysql8_audit_proxy.ClientSess.Wrappers.{writes, AreAlike, writes-AreAlike}

abbrev query : Text
query = 9 ∷ 0 ∷ 0 ∷ 0 ∷ 3 ∷ codes "select 1"

dump_line-query :
    dump_line (codes "c:") 0x20 query
    ≡ codes "c: 00000020  09 00 00 00 03 73 65 6c  65 63 74 20 31          |.....select 1|\n"
unfolding dump_line padded_hex hex_digits hex_digit hex_column hex_parts hex_part join ascii_parts
dump_line-query = refl

-- A connection that takes four bytes at most.
abbrev narrow : Text → Text → (ℕ × Option (Unit {0})) × Text
narrow b w = ((length (take 4 b), if ltb 4 (length b) then some tt else none), w ++ take 4 b)

writes-AreAlike_example :
    AreAlike
      (writes narrow (query ∷ codes "ab" ∷ []) [])
      (writes
        (debug_write narrow)
        (query ∷ codes "ab" ∷ [])
        (record { prefix = codes "c:"; offset = 0; printed = []; inner = [] }))
      (writes (conn_write narrow) (query ∷ codes "ab" ∷ []) (wrap_conn [] (codes "c:")))
writes-AreAlike_example = writes-AreAlike narrow (query ∷ codes "ab" ∷ []) (codes "c:") 0 [] []

-- The values of the constants.
abbrev value_of : Flag → ℕ
value_of client_long_password = 2 ^ 0
value_of client_found_rows = 2 ^ 1
value_of client_long_flag = 2 ^ 2
value_of client_connect_with_db = 2 ^ 3
value_of client_no_schema = 2 ^ 4
value_of client_compress = 2 ^ 5
value_of client_odbc = 2 ^ 6
value_of client_local_files = 2 ^ 7
value_of client_ignore_space = 2 ^ 8
value_of client_protocol_41 = 2 ^ 9
value_of client_interactive = 2 ^ 10
value_of client_ssl = 2 ^ 11
value_of client_ignore_sigpipe = 2 ^ 12
value_of client_transactions = 2 ^ 13
value_of client_reserved = 2 ^ 14
value_of client_secure_connection = 2 ^ 15
value_of client_multi_statements = 2 ^ 16
value_of client_multi_results = 2 ^ 17
value_of client_ps_multi_results = 2 ^ 18
value_of client_plugin_auth = 2 ^ 19
value_of client_connect_attrs = 2 ^ 20
value_of client_plugin_auth_lenenc_client_data = 2 ^ 21
value_of client_can_handle_expired_passwords = 2 ^ 22
value_of client_session_track = 2 ^ 23
value_of client_deprecate_eof = 2 ^ 24
value_of client_optional_resultset_metadata = 2 ^ 25
value_of client_zstd_compression_algorithm = 2 ^ 26
value_of client_query_attributes = 2 ^ 27
value_of multi_factor_authentication = 2 ^ 28
value_of client_capability_extension = 2 ^ 29
value_of client_ssl_verify_server_cert = 2 ^ 30
value_of client_remember_options = 2 ^ 31

-- `CLIENT_LONG_PASSWORD|CLIENT_LONG_FLAG`.
print_capability-names_set_example :
    print_capability value_of 5
    ≡ codes "capabilitystring: " ++ join (codes "|") (names_set capability_names 5)
print_capability-names_set_example =
    print_capability-names_set value_of 5
      ((
        refl,
        (
          refl,
          (
            refl,
            (
              refl,
              (
                refl,
                (
                  refl,
                  (
                    refl,
                    (
                      refl,
                      (
                        refl,
                        (
                          refl,
                          (
                            refl,
                            (
                              refl,
                              (
                                refl,
                                (
                                  refl,
                                  (
                                    refl,
                                    (
                                      refl,
                                      (
                                        refl,
                                        (
                                          refl,
                                          (
                                            refl,
                                            (
                                              refl,
                                              (
                                                refl,
                                                (
                                                  refl,
                                                  (
                                                    refl,
                                                    (
                                                      refl,
                                                      (
                                                        refl,
                                                        (
                                                          refl,
                                                          (
                                                            refl,
                                                            (
                                                            refl,
                                                            (refl, (refl, (refl, (refl, tt)))),
                                                            ),
                                                          ),
                                                        ),
                                                      ),
                                                    ),
                                                  ),
                                                ),
                                              ),
                                            ),
                                          ),
                                        ),
                                      ),
                                    ),
                                  ),
                                ),
                              ),
                            ),
                          ),
                        ),
                      ),
                    ),
                  ),
                ),
              ),
            ),
          ),
        ),
      ))
      (omega arith)
