-- ===== src/SendPacket/Encoding.antt =====
-- What `EncodePacket` writes, whatever the writer does.
use mysql8_audit_proxy.Base.{
  ◌+◌, length-append, arith, ◌%◌, ◌^◌, ◌≡◌, ◌⊎◌, inl, inr, refl, ap, ◌∙◌, [], ◌++◌, Text, length,
  Result, ok, err, append-nil, append_assoc,
}
use mysql8_audit_proxy.Base.Bytes.{le_bytes, length-le_bytes}
use mysql8_audit_proxy.Base.Action.{Action, ◌>>◌, proceed}
use mysql8_audit_proxy.SendPacket.{SendPacket, write_bytes, encode_packet}

-- A byte string behind its length.
unfoldable pub framed : Text → Text
framed b = le_bytes 4 (length b % 2 ^ 32) ++ b

unfoldable pub encoding : SendPacket → Text
encoding p =
    le_bytes 8 p.datetime
    ++ (le_bytes 4 p.connection_id
        ++ (framed p.user
            ++ (framed p.db
                ++ (framed p.addr
                    ++ (framed p.state
                        ++ (framed p.error ++ (framed p.cmd ++ framed p.packets)))))))

-- `view` is what a writer has taken so far. From `w` a write of `b` led to `r`: all of `b` was taken
-- if there is no error, and some bytes from its front otherwise.
module _ {E W : Type 0} (view : W → Text) where
  pub record Taken (w : W) (b : Text) (r : Result E (Unit {0}) × W) : Type 0 where
    pub front : Text
    pub back : Text
    pub parts : b ≡ front ++ back
    pub taken : view r.1 ≡ view w ++ front
    pub whole : (back ≡ []) ⊎ ((e : E) × (r.0 ≡ err e))

  -- The action takes all of `b`, or returns an error.
  abbrev pub Appends : Action E W (Unit {0}) → Text → Type 0
  Appends m b = (w : W) → Taken w b (m w)

  proceed-Taken :
      (w : W) (b c : Text) (r : Result E (Unit {0}) × W) (n : Action E W (Unit {0}))
      → Taken w b r
      → Appends n c
      → Taken w (b ++ c) (proceed r (λ _. n))
  proceed-Taken w b c (ok u, w') n h k =
      let t = k w' in
      let nothing : h.back ≡ [] = elim h.whole [ inl q ↦ q | inr (x, q) ↦ cc ] in
      let all : b ≡ h.front = h.parts ∙ rw nothing (append-nil h.front) in
      record {
        front = b ++ t.front;
        back = t.back;
        parts = rw (append_assoc, ← t.parts);
        taken = t.taken ∙ rw (h.taken, all) (append_assoc (view w) h.front t.front);
        whole = t.whole;
      }
  proceed-Taken w b c (err e, w') n h k = record {
    front = h.front;
    back = h.back ++ c;
    parts = rw h.parts (append_assoc h.front h.back c);
    taken = h.taken;
    whole = inr (e, refl);
  }

  pub Appends-then :
      {m n : Action E W (Unit {0})} {b c : Text}
      → Appends m b
      → Appends n c
      → Appends (m >> n) (b ++ c)
  Appends-then {m} {n} {b} {c} hm hn w = proceed-Taken w b c (m w) n (hm w) hn

  module _ (write : Text → Action E W (Unit {0})) (appends : (b : Text) → Appends (write b) b) where
    write_bytes-Appends : (b : Text) → Appends (write_bytes write b) (framed b)
    unfolding write_bytes framed
    write_bytes-Appends b = Appends-then (appends _) (appends _)

    -- Over any writer whose `Write` takes all bytes unless it returns an error, a packet is written as
    -- its encoding: all of it if no error is returned, and some bytes from its front otherwise.
    pub encode_packet-Appends : (p : SendPacket) → Appends (encode_packet write p) (encoding p)
    unfolding encode_packet encoding
    encode_packet-Appends p = Appends-then (appends _) (
        Appends-then (appends _) (
          Appends-then (write_bytes-Appends _) (
            Appends-then (write_bytes-Appends _) (
              Appends-then (write_bytes-Appends _) (
                Appends-then (write_bytes-Appends _) (
                  Appends-then (write_bytes-Appends _)
                    (Appends-then (write_bytes-Appends _) (write_bytes-Appends _))))))))

-- A writer that never fails, whose state is a function of what it has taken.
module _ {E W : Type 0} (st : Text → W) where
  -- The action takes `b` behind whatever was taken before.
  pub record Extends (m : Action E W (Unit {0})) (b : Text) : Type 0 where
    pub goes : (t : Text) → m (st t) ≡ (ok tt, st (t ++ b))

  Extends-then :
      {m n : Action E W (Unit {0})} {b c : Text}
      → Extends m b
      → Extends n c
      → Extends (m >> n) (b ++ c)
  Extends-then {m} {n} {b} {c} hm hn = record {
    goes = λ t.
        ap (λ (r : Result E (Unit {0}) × W). proceed r (λ _. n)) (hm.goes t)
        ∙ hn.goes (t ++ b)
        ∙ ap (λ u. (ok tt, st u)) (append_assoc t b c);
  }

  module _ (write : Text → Action E W (Unit {0})) (extends : (b : Text) → Extends (write b) b) where
    write_bytes-Extends : (b : Text) → Extends (write_bytes write b) (framed b)
    unfolding write_bytes framed
    write_bytes-Extends b = Extends-then (extends _) (extends _)

    pub encode_packet-Extends : (p : SendPacket) → Extends (encode_packet write p) (encoding p)
    unfolding encode_packet encoding
    encode_packet-Extends p = Extends-then (extends _) (
        Extends-then (extends _) (
          Extends-then (write_bytes-Extends _) (
            Extends-then (write_bytes-Extends _) (
              Extends-then (write_bytes-Extends _) (
                Extends-then (write_bytes-Extends _) (
                  Extends-then (write_bytes-Extends _)
                    (Extends-then (write_bytes-Extends _) (write_bytes-Extends _))))))))

-- A record is as long as its byte strings, and 40 bytes more.
pub length-encoding :
    (p : SendPacket)
    → length (encoding p)
      ≡ 40
        + (length p.user
            + length p.db
            + length p.addr
            + length p.state
            + length p.error
            + length p.cmd
            + length p.packets)
unfolding encoding framed
length-encoding p = simp (length-append, length-le_bytes) (omega arith)

-- An error of the first write ends the packet.
pub encode_packet-err :
    {E W : Type 0} (write : Text → Action E W (Unit {0})) (p : SendPacket) (w w' : W) (e : E)
    → ((b : Text) → write b w ≡ (err e, w'))
    → encode_packet write p w ≡ (err e, w')
unfolding encode_packet
encode_packet-err write p w w' e h = rw (h _) refl
