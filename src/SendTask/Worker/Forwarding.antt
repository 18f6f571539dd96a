-- ===== src/SendTask/Worker/Forwarding.antt =====
-- A client's packets are sent on and logged one by one.
use mysql8_audit_proxy.Base.{
  ℕ, ◌+◌, ◌^◌, ◌≤◌, ◌<◌, ltb, ◌≡◌, refl, sym, ap, ◌∙◌, true, false, Option, none, List, [], ◌∷◌,
  ◌++◌, Text, codes, length, All, arith, append-nil, append_assoc,
}
use mysql8_audit_proxy.SendPacket.{SendPacket}
use mysql8_audit_proxy.SendTask.{Arrival}
use mysql8_audit_proxy.SendTask.Reading.{IsData, content, IsClosing}
use mysql8_audit_proxy.SendTask.Buffer.{Slice, bytes}
use mysql8_audit_proxy.SendTask.Packets.{sent, write_buffer_and_send}
use mysql8_audit_proxy.SendTask.Packets.Header.{wire}
use mysql8_audit_proxy.SendTask.Packets.Wire.{
  write_buffer_and_send-SentOn, write_buffer_and_send-end,
}
use mysql8_audit_proxy.SendTask.Worker.{
  SendTask, Pooled, Supply, Round, new_send_packet, Session, push, send_state, WorkerEnd, ended,
  deliver, after_send, worker_loop, deferred, worker,
}

-- The bytes of packets, each with its number and its payload.
abbrev pub wires : List (ℕ × Text) → Text
wires [] = []
wires ((sequence, payload) ∷ ps) = wire sequence payload ++ wires ps

-- The payload's length fits its three bytes.
abbrev pub IsShort : ℕ × Text → Type 0
IsShort (sequence, payload) = length payload < 256 ^ 3

-- The context is not done, the queue takes the packet, and the buffer is as large as those of the pool.
pub record IsReady (r : Round) : Type 0 where
  pub going : r.cancelled ≡ false
  pub queued : r.supply.taken ≡ true
  pub room : 0xffffff + 4 ≤ length r.supply.pooled.buffer.mem

-- The record of a packet: the fields of the session, and the packet's bytes.
abbrev pub record_of : SendTask → Supply → Text → SendPacket
record_of st u packet = record u.pooled.packet {
  datetime = u.now;
  connection_id = st.conn_id;
  user = st.user;
  db = st.db;
  addr = st.remote_addr;
  state = codes "est";
  packets = packet;
}

-- The record of a state, which has no bytes.
abbrev pub state_of : SendTask → Supply → Text → SendPacket
state_of st u state = record u.pooled.packet {
  datetime = u.now;
  connection_id = st.conn_id;
  user = st.user;
  db = st.db;
  addr = st.remote_addr;
  state = state;
  packets = [];
}

abbrev pub records_of : SendTask → List Round → List (ℕ × Text) → List SendPacket
records_of st rounds [] = []
records_of st [] (p ∷ ps) = []
records_of st (r ∷ rounds) ((sequence, payload) ∷ ps) =
    record_of st r.supply (wire sequence payload) ∷ records_of st rounds ps

send_state-taken :
    {W : Type 0} (st : SendTask) (u : Supply) (state : Text) (s : Session W)
    → u.taken ≡ true
    → send_state st u state s ≡ record s { logged = s.logged ++ (state_of st u state ∷ []) }
unfolding send_state new_send_packet
send_state-taken st u state s h = ap (λ taken. push taken (state_of st u state) s) h

module _ {E W : Type 0} (view : W → Text) (write : Text → W → (ℕ × Option E) × W)
    (takes : (b : Text) (w : W)
      → ((write b w).0 ≡ (length b, none)) × (view (write b w).1 ≡ view w ++ b))
    (spare : ℕ) (st : SendTask) where
  -- The loop has ended, the records were pushed, and the bytes were sent on.
  pub record Done (s : Session W) (records : List SendPacket) (sent_on : Text)
      (r : WorkerEnd E × Session W) : Type 0 where
    pub last : Session W
    pub ends : r ≡ (ended, last)
    pub logged : last.logged ≡ s.logged ++ records
    pub written : view last.writer ≡ view s.writer ++ sent_on

  round_starts :
      (r : Round) (rounds : List Round) (s : Session W)
      → IsReady r
      → worker_loop write spare st (r ∷ rounds) none s
        ≡ after_send true
            (new_send_packet st r.supply)
            s
            (worker_loop write spare st rounds)
            (write_buffer_and_send write spare r.supply.pooled.buffer s.writer s.input)
  unfolding worker_loop new_send_packet
  round_starts r rounds s ready = simp (ready.going, ready.queued)

  after_send-sent :
      (sp : Pooled) (s : Session W) (further : Option Pooled → Session W → WorkerEnd E × Session W)
      (b : Slice) (w : W) (input : List Arrival) (packet : Text)
      → ltb 0 b.len ≡ true
      → bytes b ≡ packet
      → after_send true sp s further (sent b w input)
        ≡ further none (record s {
          logged = s.logged ++ (record sp.packet { packets = packet } ∷ []);
          writer = w;
          input = input;
        })
  unfolding after_send deliver
  after_send-sent sp s further b w input packet some_bytes is = rw some_bytes (rw is)

  worker_loop-Done :
      (ps : List (ℕ × Text)) (rounds : List Round) (s : Session W) (arrivals : List Arrival)
      (a : Arrival) (rest : List Arrival)
      → All IsShort ps
      → All IsReady rounds
      → length ps < length rounds
      → All IsData arrivals
      → content arrivals ≡ wires ps
      → IsClosing a
      → s.input ≡ arrivals ++ (a ∷ rest)
      → Done s (records_of st rounds ps) (wires ps) (worker_loop write spare st rounds none s)
  unfolding after_send deliver new_send_packet
  worker_loop-Done ps [] s arrivals a rest short ready lt h hc closing hi = absurd (omega arith)
  worker_loop-Done [] (r ∷ rounds) s arrivals a rest short (ready, _) lt h hc closing hi =
      let b = r.supply.pooled.buffer in
      let (b', stops) =
        write_buffer_and_send-end view write takes spare b s.writer ready.room arrivals a rest h hc
          closing in
      record {
        last = record s { input = rest };
        ends =
            round_starts r rounds s ready
            ∙ ap
                (λ input.
                  after_send true (new_send_packet st r.supply) s
                    (worker_loop write spare st rounds)
                    (write_buffer_and_send write spare b s.writer input))
                hi
            ∙ ap
                (after_send true (new_send_packet st r.supply) s
                  (worker_loop write spare st rounds))
                stops;
        logged = sym (append-nil s.logged);
        written = sym (append-nil (view s.writer));
      }
  worker_loop-Done ((sequence, payload) ∷ ps) (r ∷ rounds) s arrivals a rest (fits, short)
        (ready, readies) lt h hc closing hi =
      let b = r.supply.pooled.buffer in
      let one =
        write_buffer_and_send-SentOn view write takes spare b s.writer ready.room sequence payload
          fits arrivals (a ∷ rest) (wires ps) h hc in
      let packet = record_of st r.supply (wire sequence payload) in
      let s' : Session W = record {
        logged = s.logged ++ (packet ∷ []);
        writer = one.last;
        input = one.left ++ (a ∷ rest);
      } in
      let d =
        worker_loop-Done ps rounds s' one.left a rest short readies (omega arith) one.left_data
          one.left_content closing refl in
      record {
        last = d.last;
        ends =
            round_starts r rounds s ready
            ∙ ap
                (λ input.
                  after_send true (new_send_packet st r.supply) s
                    (worker_loop write spare st rounds)
                    (write_buffer_and_send write spare b s.writer input))
                hi
            ∙ ap
                (after_send true (new_send_packet st r.supply) s
                  (worker_loop write spare st rounds))
                one.ends
            ∙ after_send-sent (new_send_packet st r.supply) s (worker_loop write spare st rounds)
                one.slice one.last (one.left ++ (a ∷ rest)) (wire sequence payload) one.not_empty
                one.slice_bytes
            ∙ d.ends;
        logged = d.logged ∙ append_assoc s.logged (packet ∷ []) (records_of st rounds ps);
        written =
            d.written
            ∙ ap (λ v. v ++ wires ps) one.written
            ∙ append_assoc (view s.writer) (wire sequence payload) (wires ps);
      }

  -- A client's packets, in whatever parts they arrive, are sent on to the target byte by byte, and the
  -- log gets the connect, the record of each packet, and the disconnect: if the payloads' lengths fit
  -- their three bytes, the buffers are as large as the pool's, there are rounds for the packets and
  -- the end, and neither the context ends nor the target fails.
  pub worker-Done :
      (ps : List (ℕ × Text)) (first : Supply) (rounds : List Round) (last : Supply) (w : W)
      (arrivals : List Arrival) (a : Arrival) (rest : List Arrival)
      → All IsShort ps
      → All IsReady rounds
      → length ps < length rounds
      → first.taken ≡ true
      → last.taken ≡ true
      → All IsData arrivals
      → content arrivals ≡ wires ps
      → IsClosing a
      → Done
          (record { logged = []; writer = w; input = arrivals ++ (a ∷ rest) })
          (state_of st first (codes "connect")
            ∷ (records_of st rounds ps ++ (state_of st last (codes "disconnect") ∷ [])))
          (wires ps)
          (worker write spare st first rounds last w (arrivals ++ (a ∷ rest)))
  unfolding worker deferred
  worker-Done ps first rounds last w arrivals a rest short ready lt hf hl h hc closing =
      let connect = state_of st first (codes "connect") in
      let start : Session W = record { logged = []; writer = w; input = arrivals ++ (a ∷ rest) } in
      let s : Session W = record {
        logged = connect ∷ [];
        writer = w;
        input = arrivals ++ (a ∷ rest);
      } in
      let d = worker_loop-Done ps rounds s arrivals a rest short ready lt h hc closing refl in
      record {
        last = record d.last {
          logged = d.last.logged ++ (state_of st last (codes "disconnect") ∷ []);
        };
        ends =
            ap (λ s. deferred st last (worker_loop write spare st rounds none s))
              (send_state-taken st first (codes "connect") start hf)
            ∙ ap (deferred st last) d.ends
            ∙ ap (λ s. (ended, s)) (send_state-taken st last (codes "disconnect") d.last hl);
        logged =
            ap (λ l. l ++ (state_of st last (codes "disconnect") ∷ [])) d.logged
            ∙ append_assoc (connect ∷ []) (records_of st rounds ps) _;
        written = d.written;
      }
