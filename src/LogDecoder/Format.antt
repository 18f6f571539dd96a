-- ===== src/LogDecoder/Format.antt =====
-- What `formatPacket` makes of a packet.
use mathlib.Core.Option
use native.Mathlib.Numerals.{add-one}
use mysql8_audit_proxy.Base.{
  ℕ, suc, ◌+◌, ◌≡◌, ◌↔◌, ◌⊎◌, inl, inr, refl, ap, ◌∙◌, none, some, [], ◌∷◌, ◌++◌, Text, codes,
  length, take, drop, lt→ltb, length-append, index_byte, index_byte-IsFree, index_byte-none,
  index_byte-append, arith, IsFree, Option-cases, take-length-append, drop-length-append,
  append-nil, take-append-drop, length-take,
}
use mysql8_audit_proxy.SendPacket.{SendPacket}
use mysql8_audit_proxy.LogDecoder.{
  Packet, trim, copied, as_text, as_raw, field_list, format_command, format_payload, format_packet,
}
use mysql8_audit_proxy.LogDecoder.Commands.{
  Command, IsInjective, com_query, com_field_list, command_of, command_of-byte, command_of-eq_some,
  get_com_name,
}

-- Every field but the command and the packets is that of the logged packet.
pub record Copies (sp : SendPacket) (p : Packet) : Type 0 where
  pub datetime_same : p.datetime ≡ sp.datetime
  pub connection_id_same : p.connection_id ≡ sp.connection_id
  pub user_same : p.user ≡ sp.user
  pub db_same : p.db ≡ sp.db
  pub addr_same : p.addr ≡ sp.addr
  pub state_same : p.state ≡ sp.state
  pub error_same : p.error ≡ sp.error
  pub packets_same : (p.packets ≡ sp.packets) ⊎ (p.packets ≡ [])

as_text-Copies : (sp : SendPacket) (cmd : Text) → Copies sp (as_text sp cmd)
unfolding as_text
as_text-Copies sp cmd = ground arith

as_raw-Copies : (sp : SendPacket) (cmd : Text) → Copies sp (as_raw sp cmd)
unfolding as_raw
as_raw-Copies sp cmd = ground arith

format_command-Copies :
    (sp : SendPacket) (name payload : Text) (c : Command) (p : Packet)
    → format_command sp name c payload ≡ some p
    → Copies sp p
unfolding format_command
format_command-Copies sp name payload c p e = ground (arith)

trim-append : (header rest : Text) → length header ≡ 4 → trim (header ++ rest) ≡ some rest
unfolding trim
trim-append header rest h = ground (
  arith,
  length-append header rest,
  ap (λ n. drop n (header ++ rest)) h,
  drop-length-append header rest,
)

-- The wildcard behind the table.
abbrev pub spaced : Text → Text
spaced [] = []
spaced (c ∷ s) = codes " " ++ (c ∷ s)

-- A packet of the given command behind a four-byte header.
pub record IsCommand (byte_of : Command → ℕ) (c : Command) (sp : SendPacket) (payload : Text)
    : Type 0 where
  pub header : Text
  pub header_length : length header ≡ 4
  pub packets_are : sp.packets ≡ header ++ (byte_of c ∷ payload)

drop_past : (s t : Text) (b : ℕ) → drop (length s + 1) (s ++ (b ∷ t)) ≡ t
drop_past s t b = rw add-one (past s)
  where
    past : (s : Text) → drop (suc (length s)) (s ++ (b ∷ t)) ≡ t
    past [] = refl
    past (c ∷ s) = past s

field_list-split :
    (table wildcard : Text)
    → field_list (table ++ (0 ∷ wildcard)) (some (length table))
      ≡ some (codes "fieldList " ++ (table ++ spaced wildcard))
unfolding field_list
field_list-split table [] =
    rw (drop_past table [] 0, take-length-append table (0 ∷ []), append-nil table)
field_list-split table (c ∷ s) = rw (
  drop_past table (c ∷ s) 0,
  take-length-append table (0 ∷ c ∷ s),
  lt→ltb 0 (length (c ∷ s)) (omega arith),
)

module _ (byte_of : Command → ℕ) where
  trim-IsCommand :
      (sp : SendPacket) (payload : Text)
      → trim sp.packets ≡ some (byte_of com_field_list ∷ payload)
      → IsCommand byte_of com_field_list sp payload
  unfolding trim
  trim-IsCommand sp payload e = record {
    header = take 4 sp.packets;
    header_length = ground (arith, length-take 4 sp.packets);
    packets_are = ground (arith, take-append-drop 4 sp.packets);
  }

  format_packet-trim :
      (sp : SendPacket) (body : Text)
      → trim sp.packets ≡ some body
      → format_packet byte_of sp ≡ format_payload byte_of sp body
  unfolding format_packet
  format_packet-trim sp body h = rw (h, format_packet)

  pub format_packet-command :
      (c : Command) (sp : SendPacket) (payload : Text)
      → IsInjective byte_of
      → IsCommand byte_of c sp payload
      → format_packet byte_of sp ≡ format_command sp (get_com_name byte_of (byte_of c)) c payload
  unfolding format_payload
  format_packet-command c sp payload inj h =
      format_packet-trim sp (byte_of c ∷ payload)
        (ap trim h.packets_are ∙ trim-append h.header (byte_of c ∷ payload) h.header_length)
      ∙ rw (command_of-byte byte_of c inj, format_payload)

  format_payload-Copies :
      (sp : SendPacket) (body : Text) (p : Packet)
      → format_payload byte_of sp body ≡ some p
      → Copies sp p
  unfolding format_payload
  format_payload-Copies sp [] p e = ground (arith, as_raw-Copies sp [])
  format_payload-Copies sp (cmd ∷ payload) p e = elim (Option-cases (command_of byte_of cmd)) [
    | inl q ↦ ground (arith, as_raw-Copies sp (get_com_name byte_of cmd))
    | inr (c, q) ↦
        format_command-Copies sp (get_com_name byte_of cmd) payload c p
          (rw (q, format_payload) at e)
  ]

  -- Whatever is printed has the time, connection, user, database, address, state and error of
  -- the logged packet, and its bytes or none.
  pub format_packet-Copies :
      (sp : SendPacket) (p : Packet) → format_packet byte_of sp ≡ some p → Copies sp p
  unfolding format_packet
  format_packet-Copies sp p e = elim (Option-cases (trim sp.packets)) [
    | inl q ↦ ground (arith, as_raw-Copies sp [])
    | inr (body, q) ↦ format_payload-Copies sp body p (rw (q, format_packet) at e)
  ]

  -- If the bytes of the commands differ, a query behind its four-byte header is printed as its
  -- text, with no packet bytes.
  pub format_packet-query :
      (sp : SendPacket) (text : Text)
      → IsInjective byte_of
      → IsCommand byte_of com_query sp text
      → format_packet byte_of sp ≡ some (record (copied sp) { cmd = text; packets = [] })
  unfolding format_command
  format_packet-query sp text inj h = format_packet-command com_query sp text inj h

  -- The decoder panics on a COM_FIELD_LIST whose table name has no NUL byte behind it.
  pub format_packet-field_list_panics :
      (sp : SendPacket) (payload : Text)
      → IsInjective byte_of
      → IsCommand byte_of com_field_list sp payload
      → IsFree 0 payload
      → format_packet byte_of sp ≡ none
  unfolding format_command
  format_packet-field_list_panics sp payload inj h free =
      format_packet-command com_field_list sp payload inj h ∙ rw (index_byte-IsFree 0 payload free)

  -- If the bytes of the commands differ, a COM_FIELD_LIST whose table ends in a NUL byte is
  -- printed as its table and, behind a space, its wildcard if it has one, with no packet bytes.
  pub format_packet-field_list :
      (sp : SendPacket) (table wildcard : Text)
      → IsInjective byte_of
      → IsFree 0 table
      → IsCommand byte_of com_field_list sp (table ++ (0 ∷ wildcard))
      → format_packet byte_of sp
        ≡ some (record (copied sp) {
          cmd = codes "fieldList " ++ (table ++ spaced wildcard);
          packets = [];
        })
  unfolding format_command
  format_packet-field_list sp table wildcard inj free h =
      format_packet-command com_field_list sp (table ++ (0 ∷ wildcard)) inj h
      ∙ rw (index_byte-append 0 table wildcard free)
          (ap (Option.map (as_text sp)) (field_list-split table wildcard))

  format_command-panics :
      (sp : SendPacket) (name payload : Text) (c : Command)
      → format_command sp name c payload ≡ none
      → (c ≡ com_field_list) × (index_byte 0 payload ≡ none)
  unfolding format_command
  format_command-panics sp name payload c e = ground arith

  format_payload-panics :
      (sp : SendPacket) (body : Text)
      → format_payload byte_of sp body ≡ none
      → (payload : Text) × (body ≡ byte_of com_field_list ∷ payload) × (index_byte 0 payload ≡ none)
  unfolding format_payload
  format_payload-panics sp [] e = cc
  format_payload-panics sp (cmd ∷ payload) e = elim (Option-cases (command_of byte_of cmd)) [
    | inl q ↦ ground arith
    | inr (c, q) ↦
        let (is, no_nul) =
          format_command-panics sp (get_com_name byte_of cmd) payload c
            (rw (q, format_payload) at e) in
        (
          payload,
          ap (λ b. b ∷ payload) (command_of-eq_some byte_of cmd c q ∙ ap byte_of is),
          no_nul,
        )
  ]

  field_list_of_panic :
      (sp : SendPacket)
      → format_packet byte_of sp ≡ none
      → (payload : Text) × IsCommand byte_of com_field_list sp payload × IsFree 0 payload
  unfolding format_packet
  field_list_of_panic sp e = elim (Option-cases (trim sp.packets)) [
    | inl q ↦ ground arith
    | inr (body, q) ↦
        let (payload, is, no_nul) = format_payload-panics sp body (rw (q, format_packet) at e) in
        (payload, trim-IsCommand sp payload (q ∙ ap some is), index_byte-none 0 payload no_nul)
  ]

  -- If the bytes of the commands differ, the decoder panics exactly on a COM_FIELD_LIST with no
  -- NUL byte behind the table's name.
  pub format_packet-panics_iff :
      (sp : SendPacket)
      → IsInjective byte_of
      → (format_packet byte_of sp ≡ none)
        ↔ ((payload : Text) × IsCommand byte_of com_field_list sp payload × IsFree 0 payload)
  format_packet-panics_iff sp inj = (
    field_list_of_panic sp,
    λ (payload, is, free). format_packet-field_list_panics sp payload inj is free,
  )
