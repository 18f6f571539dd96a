-- ===== src/SendTask/Worker/Tail.antt =====
-- What a session has written and what it has logged, between two of its states.
use mysql8_audit_proxy.Base.{
  ℕ, ◌≡◌, inl, inr, refl, sym, ap, ◌∙◌, Bool, true, false, Bool-cases, Option, none, some, List, [],
  ◌∷◌, ◌++◌, Text, take, ltb, if◌then◌else◌, append-nil, append_assoc, arith,
}
use mysql8_audit_proxy.SendPacket.{SendPacket}
use mysql8_audit_proxy.SendTask.{Arrival}
use mysql8_audit_proxy.SendTask.Buffer.{Slice, bytes}
use mysql8_audit_proxy.SendTask.Packets.{
  end_of_input, header_failed, data_failed, write_failed, Sent, sent, send_error, send_panic,
  send_waiting, write_buffer_and_send,
}
use mysql8_audit_proxy.SendTask.Worker.{
  Pooled, Round, pushed, Session, push, WorkerEnd, context_done, send_failed, ended, panicked,
  running, deliver, after_send,
}
use mysql8_audit_proxy.SendTask.Packets.Writes.{Writes}

-- The bytes of logged packets.
abbrev pub logged_bytes : List SendPacket → Text
logged_bytes [] = []
logged_bytes (p ∷ ps) = p.packets ++ logged_bytes ps

pub logged_bytes-append :
    (ps qs : List SendPacket) → logged_bytes (ps ++ qs) ≡ logged_bytes ps ++ logged_bytes qs
logged_bytes-append [] qs = refl
logged_bytes-append (p ∷ ps) qs =
    ap (λ b. p.packets ++ b) (logged_bytes-append ps qs)
    ∙ sym (append_assoc p.packets (logged_bytes ps) (logged_bytes qs))

-- In a round that goes on the queue does not take a packet before the context is done.
pub data Refuses : List Round → Type 0 where
  here :
      (r : Round) (rounds : List Round)
      → r.cancelled ≡ false
      → r.supply.taken ≡ false
      → Refuses (r ∷ rounds)
  later : (r : Round) (rounds : List Round) → Refuses rounds → Refuses (r ∷ rounds)

empty_bytes : (b : Slice) → ltb 0 b.len ≡ false → bytes b ≡ []
empty_bytes b h = let none_left : b.len ≡ 0 = ground arith in ap (λ n. take n b.mem) none_left

module _ {E W : Type 0} (view : W → Text) (write : Text → W → (ℕ × Option E) × W) (spare : ℕ) where
  -- The bytes of one packet, as `writeBufferAndSend` has written it.
  pub record IsSent (b : Text) (w : W) : Type 0 where
    pub dst : Slice
    pub before : W
    pub arrived : List Arrival
    pub left : List Arrival
    pub packet : Slice
    pub is_sent : write_buffer_and_send write spare dst before arrived ≡ sent packet w left
    pub is_written : view w ≡ view before ++ bytes packet
    pub is_packet : b ≡ bytes packet

  -- The front of a packet, of which `writeBufferAndSend` has written no more before its error.
  pub record IsPart (e : E) (b : Text) (w : W) : Type 0 where
    pub dst : Slice
    pub before : W
    pub arrived : List Arrival
    pub left : List Arrival
    pub packet : Slice
    pub rest : Text
    pub failed :
        write_buffer_and_send write spare dst before arrived
        ≡ send_error (write_failed e) packet w left
    pub is_written : view w ≡ view before ++ b
    pub is_front : b ++ rest ≡ packet.mem

  -- What may be written behind the packets that are logged, at the end of a run.
  pub data Tail (rounds : List Round) (e : WorkerEnd E) (w : W) (b : Text) : Type 0 where
    nothing_left : b ≡ [] → Tail rounds e w b
    not_queued : e ≡ context_done → Refuses rounds → IsSent b w → Tail rounds e w b
    part_written : (x : E) → e ≡ send_failed (write_failed x) → IsPart x b w → Tail rounds e w b

  -- What was written, between two states of a session, is what was logged, and then its tail. A panic
  -- is left aside.
  pub record Complete (rounds : List Round) (s : Session W) (r : WorkerEnd E × Session W)
      : Type 0 where
    pub new : List SendPacket
    pub tail : Text
    pub logged : r.1.logged ≡ s.logged ++ new
    pub written : view r.1.writer ≡ view s.writer ++ (logged_bytes new ++ tail)
    pub tail_unlogged : Tail rounds r.0 r.1.writer tail

  pub unchanged :
      (rounds : List Round) (s : Session W) (e : WorkerEnd E) (w : W) (input : List Arrival)
      → view w ≡ view s.writer
      → Complete rounds s (e, record s { writer = w; input = input })
  unchanged rounds s e w input h = record {
    new = [];
    tail = [];
    logged = sym (append-nil s.logged);
    written = h ∙ sym (append-nil (view s.writer));
    tail_unlogged = nothing_left refl;
  }

  -- A part of the run that wrote one packet and logged it, and the rest of the run.
  pub logged_first :
      (rounds : List Round) (p : SendPacket) (s s' : Session W) (r : WorkerEnd E × Session W)
      → s'.logged ≡ s.logged ++ (p ∷ [])
      → view s'.writer ≡ view s.writer ++ p.packets
      → Complete rounds s' r
      → Complete rounds s r
  logged_first rounds p s s' r hl hw c = record {
    new = p ∷ c.new;
    tail = c.tail;
    logged = c.logged ∙ ap (λ l. l ++ c.new) hl ∙ append_assoc s.logged (p ∷ []) c.new;
    written =
        c.written
        ∙ ap (λ v. v ++ (logged_bytes c.new ++ c.tail)) hw
        ∙ append_assoc (view s.writer) p.packets (logged_bytes c.new ++ c.tail)
        ∙ ap (λ b. view s.writer ++ b) (sym (append_assoc p.packets (logged_bytes c.new) c.tail));
    tail_unlogged = c.tail_unlogged;
  }

  nothing_first :
      (rounds : List Round) (s s' : Session W) (r : WorkerEnd E × Session W)
      → s'.logged ≡ s.logged
      → view s'.writer ≡ view s.writer
      → Complete rounds s' r
      → Complete rounds s r
  nothing_first rounds s s' r hl hw c = record {
    new = c.new;
    tail = c.tail;
    logged = c.logged ∙ ap (λ l. l ++ c.new) hl;
    written = c.written ∙ ap (λ v. v ++ (logged_bytes c.new ++ c.tail)) hw;
    tail_unlogged = c.tail_unlogged;
  }

  -- What the rest of the run may be, as the loop passes it on.
  abbrev pub Completes : List Round → (Option Pooled → Session W → WorkerEnd E × Session W) → Type 0
  Completes rounds further =
      (p : Option Pooled) (s' : Session W) → Complete rounds s' (further p s')

  deliver-Complete :
      (rounds : List Round) (taken : Bool) (sp : Pooled) (s : Session W) (w : W)
      (input : List Arrival) (further : Option Pooled → Session W → WorkerEnd E × Session W)
      → (taken ≡ false → Refuses rounds)
      → IsSent (bytes sp.buffer) w
      → view w ≡ view s.writer ++ bytes sp.buffer
      → Completes rounds further
      → Complete rounds s (deliver taken sp (record s { writer = w; input = input }) further)
  unfolding deliver
  deliver-Complete rounds taken sp s w input further refused one h rest =
      elim (Bool-cases (ltb 0 sp.buffer.len)) [
        | inl q ↦ rw q (queued taken refused)
        | inr q ↦ rw q (
            nothing_first rounds s (record s { writer = w; input = input }) _ refl
              (h
                ∙ ap (λ b. view s.writer ++ b) (empty_bytes sp.buffer q)
                ∙ append-nil (view s.writer))
              (rest (some sp) (record s { writer = w; input = input })))
      ]
    where
      queued :
          (taken : Bool)
          → (taken ≡ false → Refuses rounds)
          → Complete rounds s (
              if taken
              then further none (push taken (pushed sp) (record s { writer = w; input = input }))
              else (context_done, record s { writer = w; input = input }))
      queued true refused =
          logged_first rounds (pushed sp) s
            (push true (pushed sp) (record s { writer = w; input = input })) _ refl h
            (rest none (push true (pushed sp) (record s { writer = w; input = input })))
      queued false refused = record {
        new = [];
        tail = bytes sp.buffer;
        logged = sym (append-nil s.logged);
        written = h;
        tail_unlogged = not_queued refl (refused refl) one;
      }

  pub after_send-Complete :
      (rounds : List Round) (taken : Bool) (sp : Pooled) (s : Session W)
      (further : Option Pooled → Session W → WorkerEnd E × Session W) (dst : Slice) (r : Sent E W)
      → (taken ≡ false → Refuses rounds)
      → write_buffer_and_send write spare dst s.writer s.input ≡ r
      → Writes view s.writer r
      → Completes rounds further
      → Complete rounds s (after_send taken sp s further r)
  unfolding after_send deliver
  after_send-Complete rounds taken sp s further dst (sent b w input) refused call h rest =
      deliver-Complete rounds taken (record sp { buffer = b }) s w input further refused
        (record {
          dst = dst;
          before = s.writer;
          arrived = s.input;
          left = input;
          packet = b;
          is_sent = call;
          is_written = h;
          is_packet = refl;
        })
        h rest
  after_send-Complete rounds taken sp s further dst (send_error end_of_input b w input) refused call
        (h, q) rest =
      rw q (unchanged rounds s ended w input h)
  after_send-Complete rounds taken sp s further dst (send_error (header_failed e) b w input) refused
        call h rest =
      unchanged rounds s (send_failed (header_failed e)) w input h
  after_send-Complete rounds taken sp s further dst (send_error (data_failed e) b w input) refused
        call h rest =
      unchanged rounds s (send_failed (data_failed e)) w input h
  after_send-Complete rounds taken sp s further dst (send_error (write_failed e) b w input) refused
        call (front, back, h, parts) rest =
      record {
        new = [];
        tail = front;
        logged = sym (append-nil s.logged);
        written = h;
        tail_unlogged = part_written e refl (record {
          dst = dst;
          before = s.writer;
          arrived = s.input;
          left = input;
          packet = b;
          rest = back;
          failed = call;
          is_written = h;
          is_front = parts;
        });
      }
  after_send-Complete rounds taken sp s further dst send_panic refused call h rest =
      unchanged rounds s panicked s.writer s.input refl
  after_send-Complete rounds taken sp s further dst (send_waiting w) refused call h rest =
      unchanged rounds s running w s.input h
