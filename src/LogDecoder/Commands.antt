-- ===== src/LogDecoder/Commands.antt =====
-- cmd/mysql8-audit-log-decoder/commap.go: the names of the commands of the MySQL protocol.
use mysql8_audit_proxy.Base.{
  ℕ, zero, suc, ◌+◌, ◌-◌, ◌/◌, ◌%◌, ◌≡◌, refl, sym, ap, ◌∙◌, get_elem?, Option, none, some, List,
  [], ◌∷◌, ◌++◌, Text, codes, ltb, ◌==◌, if◌then◌else◌, arith,
}
use mathlib.Core.Option.{some-injective}

-- The constants mysql.COM_… of github.byte_of/go-mysql-org/go-mysql that the decoder names.
pub data Command : Type 0 where
  com_sleep com_quit com_init_db com_query com_field_list com_create_db com_drop_db com_refresh
        com_shutdown com_statistics com_process_info com_connect com_process_kill com_debug com_ping
        com_time com_delayed_insert com_change_user com_binlog_dump com_table_dump com_connect_out
        com_register_slave com_stmt_prepare com_stmt_execute com_stmt_send_long_data com_stmt_close
        com_stmt_reset com_set_option com_stmt_fetch com_daemon com_binlog_dump_gtid
        com_reset_connection :
      Command

abbrev pub commands : List Command
commands =
    com_sleep ∷ com_quit ∷ com_init_db ∷ com_query ∷ com_field_list ∷ com_create_db ∷ com_drop_db
    ∷ com_refresh ∷ com_shutdown ∷ com_statistics ∷ com_process_info ∷ com_connect
    ∷ com_process_kill ∷ com_debug ∷ com_ping ∷ com_time ∷ com_delayed_insert ∷ com_change_user
    ∷ com_binlog_dump ∷ com_table_dump ∷ com_connect_out ∷ com_register_slave ∷ com_stmt_prepare
    ∷ com_stmt_execute ∷ com_stmt_send_long_data ∷ com_stmt_close ∷ com_stmt_reset ∷ com_set_option
    ∷ com_stmt_fetch ∷ com_daemon ∷ com_binlog_dump_gtid ∷ com_reset_connection ∷ []

-- `COMMap`, whose keys are the constants.
pub com_map : Command → Text
com_map com_sleep = codes "COM_SLEEP"
com_map com_quit = codes "COM_QUIT"
com_map com_init_db = codes "COM_INIT_DB"
com_map com_query = codes "COM_QUERY"
com_map com_field_list = codes "COM_FIELD_LIST"
com_map com_create_db = codes "COM_CREATE_DB"
com_map com_drop_db = codes "COM_DROP_DB"
com_map com_refresh = codes "COM_REFRESH"
com_map com_shutdown = codes "COM_SHUTDOWN"
com_map com_statistics = codes "COM_STATISTICS"
com_map com_process_info = codes "COM_PROCESS_INFO"
com_map com_connect = codes "COM_CONNECT"
com_map com_process_kill = codes "COM_PROCESS_KILL"
com_map com_debug = codes "COM_DEBUG"
com_map com_ping = codes "COM_PING"
com_map com_time = codes "COM_TIME"
com_map com_delayed_insert = codes "COM_DELAYED_INSERT"
com_map com_change_user = codes "COM_CHANGE_USER"
com_map com_binlog_dump = codes "COM_BINLOG_DUMP"
com_map com_table_dump = codes "COM_TABLE_DUMP"
com_map com_connect_out = codes "COM_CONNECT_OUT"
com_map com_register_slave = codes "COM_REGISTER_SLAVE"
com_map com_stmt_prepare = codes "COM_STMT_PREPARE"
com_map com_stmt_execute = codes "COM_STMT_EXECUTE"
com_map com_stmt_send_long_data = codes "COM_STMT_SEND_LONG_DATA"
com_map com_stmt_close = codes "COM_STMT_CLOSE"
com_map com_stmt_reset = codes "COM_STMT_RESET"
com_map com_set_option = codes "COM_SET_OPTION"
com_map com_stmt_fetch = codes "COM_STMT_FETCH"
com_map com_daemon = codes "COM_DAEMON"
com_map com_binlog_dump_gtid = codes "COM_BINLOG_DUMP_GTID"
com_map com_reset_connection = codes "COM_RESET_CONNECTION"

-- The `%x` of a byte.
unfoldable pub hex_digit : ℕ → ℕ
hex_digit n = if ltb n 10 then n + b'0' else n - 10 + b'a'

unfoldable pub hex : ℕ → Text
unfolding hex_digit
hex b = if ltb b 16 then hex_digit b ∷ [] else hex_digit (b / 16) ∷ hex_digit (b % 16) ∷ []

-- `byte_of` gives the constants their bytes. They differ, or Go would refuse the map and the `switch`.
abbrev pub IsInjective : (Command → ℕ) → Type 0
IsInjective byte_of = (c d : Command) → byte_of c ≡ byte_of d → c ≡ d

module _ (byte_of : Command → ℕ) where
  find_com : ℕ → List Command → Option Command
  find_com b [] = none
  find_com b (c ∷ cs) = if byte_of c == b then some c else find_com b cs

  -- The constant with that byte, by which a map lookup and a `switch` go.
  unfoldable pub command_of : ℕ → Option Command
  unfolding find_com
  command_of b = find_com b commands

  unfoldable pub get_com_name : ℕ → Text
  get_com_name b = elim (command_of b) [ some c ↦ com_map c | none ↦ codes "UNKNOWN:" ++ hex b ]

  find_com-eq_some :
      (b : ℕ) (cs : List Command) (c : Command) → find_com b cs ≡ some c → b ≡ byte_of c
  unfolding find_com
  find_com-eq_some b [] c e = cc
  find_com-eq_some b (d ∷ cs) c e = ground (arith, find_com-eq_some b cs c)

  pub command_of-eq_some : (b : ℕ) (c : Command) → command_of b ≡ some c → b ≡ byte_of c
  unfolding command_of
  command_of-eq_some b c e = find_com-eq_some b commands c e

  find_com-byte :
      (cs : List Command) (i : ℕ) (c : Command)
      → IsInjective byte_of
      → get_elem? cs i ≡ some c
      → find_com (byte_of c) cs ≡ some c
  unfolding find_com
  find_com-byte [] i c h e = cc
  find_com-byte (d ∷ cs) zero c h e = ground arith
  find_com-byte (d ∷ cs) (suc i) c h e = ground (arith, h d c, find_com-byte cs i c)

-- The bytes that the protocol documents.
abbrev pub protocol : Command → ℕ
protocol com_sleep = 0
protocol com_quit = 1
protocol com_init_db = 2
protocol com_query = 3
protocol com_field_list = 4
protocol com_create_db = 5
protocol com_drop_db = 6
protocol com_refresh = 7
protocol com_shutdown = 8
protocol com_statistics = 9
protocol com_process_info = 10
protocol com_connect = 11
protocol com_process_kill = 12
protocol com_debug = 13
protocol com_ping = 14
protocol com_time = 15
protocol com_delayed_insert = 16
protocol com_change_user = 17
protocol com_binlog_dump = 18
protocol com_table_dump = 19
protocol com_connect_out = 20
protocol com_register_slave = 21
protocol com_stmt_prepare = 22
protocol com_stmt_execute = 23
protocol com_stmt_send_long_data = 24
protocol com_stmt_close = 25
protocol com_stmt_reset = 26
protocol com_set_option = 27
protocol com_stmt_fetch = 28
protocol com_daemon = 29
protocol com_binlog_dump_gtid = 30
protocol com_reset_connection = 31

listed : (c : Command) → get_elem? commands (protocol c) ≡ some c
listed com_sleep = refl
listed _ = refl

pub command_of-byte :
    (byte_of : Command → ℕ) (c : Command)
    → IsInjective byte_of
    → command_of byte_of (byte_of c) ≡ some c
unfolding command_of
command_of-byte byte_of c h = find_com-byte byte_of commands (protocol c) c h (listed c)

pub protocol-IsInjective : IsInjective protocol
protocol-IsInjective c d e =
    some-injective _ _ (sym (listed c) ∙ ap (get_elem? commands) e ∙ listed d)
