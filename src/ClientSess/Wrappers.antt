-- ===== src/ClientSess/Wrappers.antt =====
-- The debugging writers in front of a connection.
use mysql8_audit_proxy.Base.{ℕ, ◌+◌, ◌≡◌, refl, ap, Option, List, [], ◌∷◌, ◌++◌, Text}
use mysql8_audit_proxy.ClientSess.{DebugWriter, DebugConn, dump, debug_write, conn_write}
use mysql8_audit_proxy.ClientSess.Dump.{conn_dump-dump}

-- Writes one after the other, with what each returned.
abbrev pub writes : {R S : Type 0} → (Text → S → R × S) → List Text → S → List R × S
writes write [] s = ([], s)
writes write (b ∷ bs) s =
    let (r, s') = write b s in let (rs, last) = writes write bs s' in (r ∷ rs, last)

-- Two results are alike, and so are the numbers and the text, and the connection behind them.
pub record AreAlike {R W : Type 0} (plain : List R × W) (d : List R × DebugWriter W)
    (c : List R × DebugConn W) : Type 0 where
  pub writer_returns : d.0 ≡ plain.0
  pub conn_returns : c.0 ≡ plain.0
  pub writer_passes : d.1.inner ≡ plain.1
  pub conn_passes : c.1.conn ≡ plain.1
  pub same_offset : c.1.offset ≡ d.1.offset
  pub same_text : c.1.printed ≡ d.1.printed

module _ {E W : Type 0} (write : Text → W → (ℕ × Option E) × W) where
  -- A connection behind a `DebugWriter`, or behind a `DebugConn` without a limit, gets the same writes
  -- and returns the same as without them, errors and short writes included, and the two print the
  -- same text.
  pub writes-AreAlike :
      (bs : List Text) (prefix : Text) (offset : ℕ) (printed : Text) (w : W)
      → AreAlike
          (writes write bs w)
          (writes
            (debug_write write)
            bs
            (record { prefix = prefix; offset = offset; printed = printed; inner = w }))
          (writes (conn_write write) bs (record {
            prefix = prefix;
            offset = offset;
            printed = printed;
            max_dump_per_buf = 0;
            conn = w;
          }))
  unfolding debug_write conn_write
  writes-AreAlike [] prefix offset printed w = record {
    writer_returns = refl;
    conn_returns = refl;
    writer_passes = refl;
    conn_passes = refl;
    same_offset = refl;
    same_text = refl;
  }
  writes-AreAlike (b ∷ bs) prefix offset printed w =
      let (r, w') = write b w in
      let h = writes-AreAlike bs prefix (offset + r.0) (printed ++ dump prefix offset b) w' in
      rw (conn_dump-dump prefix offset b) (record {
        writer_returns = ap (λ rs. r ∷ rs) h.writer_returns;
        conn_returns = ap (λ rs. r ∷ rs) h.conn_returns;
        writer_passes = h.writer_passes;
        conn_passes = h.conn_passes;
        same_offset = h.same_offset;
        same_text = h.same_text;
      })
