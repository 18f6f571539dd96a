-- ===== src/ClientSess/Capability.antt =====
-- `PrintCapability` of pkg/mysqlproxy/clntsess.go: the names of the flags that are set.
pub mod Fields
pub mod Names
use Prim.Native.Nat.{bit_xor}
use mysql8_audit_proxy.Base.{
  ℕ, zero, suc, ◌+◌, ◌*◌, ◌/◌, ◌%◌, ◌^◌, ◌<◌, ◌≤◌, ◌≡◌, List, [], ◌∷◌, ◌++◌, map, Text, codes, ◌==◌,
  if◌then◌else◌,
}
use mysql8_audit_proxy.AuditLog.Names.{decimal}
use mysql8_audit_proxy.ClientSess.{join}

-- The constants of the MySQL library.
pub data Flag : Type 0 where
  client_long_password client_found_rows client_long_flag client_connect_with_db client_no_schema
        client_compress client_odbc client_local_files client_ignore_space client_protocol_41
        client_interactive client_ssl client_ignore_sigpipe client_transactions client_reserved
        client_secure_connection client_multi_statements client_multi_results
        client_ps_multi_results client_plugin_auth client_connect_attrs
        client_plugin_auth_lenenc_client_data client_can_handle_expired_passwords
        client_session_track client_deprecate_eof client_optional_resultset_metadata
        client_zstd_compression_algorithm client_query_attributes multi_factor_authentication
        client_capability_extension client_ssl_verify_server_cert client_remember_options :
      Flag

abbrev pub name_of : Flag → Text
name_of client_long_password = codes "CLIENT_LONG_PASSWORD"
name_of client_found_rows = codes "CLIENT_FOUND_ROWS"
name_of client_long_flag = codes "CLIENT_LONG_FLAG"
name_of client_connect_with_db = codes "CLIENT_CONNECT_WITH_DB"
name_of client_no_schema = codes "CLIENT_NO_SCHEMA"
name_of client_compress = codes "CLIENT_COMPRESS"
name_of client_odbc = codes "CLIENT_ODBC"
name_of client_local_files = codes "CLIENT_LOCAL_FILES"
name_of client_ignore_space = codes "CLIENT_IGNORE_SPACE"
name_of client_protocol_41 = codes "CLIENT_PROTOCOL_41"
name_of client_interactive = codes "CLIENT_INTERACTIVE"
name_of client_ssl = codes "CLIENT_SSL"
name_of client_ignore_sigpipe = codes "CLIENT_IGNORE_SIGPIPE"
name_of client_transactions = codes "CLIENT_TRANSACTIONS"
name_of client_reserved = codes "CLIENT_RESERVED"
name_of client_secure_connection = codes "CLIENT_SECURE_CONNECTION"
name_of client_multi_statements = codes "CLIENT_MULTI_STATEMENTS"
name_of client_multi_results = codes "CLIENT_MULTI_RESULTS"
name_of client_ps_multi_results = codes "CLIENT_PS_MULTI_RESULTS"
name_of client_plugin_auth = codes "CLIENT_PLUGIN_AUTH"
name_of client_connect_attrs = codes "CLIENT_CONNECT_ATTRS"
name_of client_plugin_auth_lenenc_client_data = codes "CLIENT_PLUGIN_AUTH_LENENC_CLIENT_DATA"
name_of client_can_handle_expired_passwords = codes "CLIENT_CAN_HANDLE_EXPIRED_PASSWORDS"
name_of client_session_track = codes "CLIENT_SESSION_TRACK"
name_of client_deprecate_eof = codes "CLIENT_DEPRECATE_EOF"
name_of client_optional_resultset_metadata = codes "CLIENT_OPTIONAL_RESULTSET_METADATA"
name_of client_zstd_compression_algorithm = codes "CLIENT_ZSTD_COMPRESSION_ALGORITHM"
name_of client_query_attributes = codes "CLIENT_QUERY_ATTRIBUTES"
name_of multi_factor_authentication = codes "MULTI_FACTOR_AUTHENTICATION"
name_of client_capability_extension = codes "CLIENT_CAPABILITY_EXTENSION"
name_of client_ssl_verify_server_cert = codes "CLIENT_SSL_VERIFY_SERVER_CERT"
name_of client_remember_options = codes "CLIENT_REMEMBER_OPTIONS"

abbrev pub flags : List Flag
flags =
    client_long_password ∷ client_found_rows ∷ client_long_flag ∷ client_connect_with_db
    ∷ client_no_schema ∷ client_compress ∷ client_odbc ∷ client_local_files ∷ client_ignore_space
    ∷ client_protocol_41 ∷ client_interactive ∷ client_ssl ∷ client_ignore_sigpipe
    ∷ client_transactions ∷ client_reserved ∷ client_secure_connection ∷ client_multi_statements
    ∷ client_multi_results ∷ client_ps_multi_results ∷ client_plugin_auth ∷ client_connect_attrs
    ∷ client_plugin_auth_lenenc_client_data ∷ client_can_handle_expired_passwords
    ∷ client_session_track ∷ client_deprecate_eof ∷ client_optional_resultset_metadata
    ∷ client_zstd_compression_algorithm ∷ client_query_attributes ∷ multi_factor_authentication
    ∷ client_capability_extension ∷ client_ssl_verify_server_cert ∷ client_remember_options ∷ []

-- `bits.TrailingZeros32` with 32 digits to go.
unfoldable pub trailing_zeros : ℕ → ℕ → ℕ
trailing_zeros zero n = 0
trailing_zeros (suc digits) n =
    let further = trailing_zeros digits (n / 2) in if n % 2 == 0 then suc further else 0

-- The values of `field` in the loop. A capability that is not 0 has a digit that is not, so that
-- `1 << n` fits 32 bits.
unfoldable pub fields_loop : ℕ → ℕ → ℕ → List ℕ
fields_loop digits zero capability = []
fields_loop digits (suc fuel) capability =
    let field = 2 ^ trailing_zeros digits capability in
    let fields = fields_loop digits fuel (bit_xor capability field) in
    if capability == 0 then [] else field ∷ fields

unfoldable pub fields_of : ℕ → List ℕ
unfolding fields_loop
fields_of capability = fields_loop 32 32 capability

module _ (value_of : Flag → ℕ) where
  -- The `switch`; its default is `(%d)`.
  unfoldable pub field_name : List Flag → ℕ → Text
  unfolding decimal
  field_name [] field = codes "(" ++ (decimal (field + 1) field ++ codes ")")
  field_name (f ∷ fs) field =
      let others = field_name fs field in if field == value_of f then name_of f else others

  unfoldable pub print_capability : ℕ → Text
  unfolding fields_of field_name join
  print_capability capability =
      codes "capabilitystring: " ++ join (codes "|") (map (field_name flags) (fields_of capability))
