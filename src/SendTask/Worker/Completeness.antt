-- ===== src/SendTask/Worker/Completeness.antt =====
-- Whatever reaches the target stands in the log, whatever the client sends.
use mysql8_audit_proxy.Base.{
  ℕ, inl, inr, refl, sym, ap, ◌∙◌, Bool, true, false, Bool-cases, Option, none, List, [], ◌∷◌, ◌++◌,
  Text, codes, append-nil, append_assoc,
}
use mysql8_audit_proxy.SendPacket.{SendPacket}
use mysql8_audit_proxy.SendTask.{Arrival}
use mysql8_audit_proxy.SendTask.Packets.{write_buffer_and_send}
use mysql8_audit_proxy.SendTask.Worker.{
  SendTask, Pooled, Supply, Round, new_send_packet, current, Session, push, send_state, WorkerEnd,
  context_done, running, worker_loop, deferred, worker,
}
use mysql8_audit_proxy.SendTask.Packets.Writes.{TakesFront, write_buffer_and_send-Writes}
use mysql8_audit_proxy.SendTask.Worker.Tail.{
  logged_bytes, logged_bytes-append, here, later, Tail, nothing_left, not_queued, part_written,
  Complete, unchanged, logged_first, after_send-Complete,
}

module _ {E W : Type 0} (view : W → Text) (write : Text → W → (ℕ × Option E) × W) (spare : ℕ) where
  later-Complete :
      (r : Round) (rounds : List Round) (s : Session W) (e : WorkerEnd E × Session W)
      → Complete view write spare rounds s e
      → Complete view write spare (r ∷ rounds) s e
  later-Complete r rounds s e c = record {
    new = c.new;
    tail = c.tail;
    logged = c.logged;
    written = c.written;
    tail_unlogged = further c.tail_unlogged;
  }
    where
      further :
          Tail view write spare rounds e.0 e.1.writer c.tail
          → Tail view write spare (r ∷ rounds) e.0 e.1.writer c.tail
      further (nothing_left q) = nothing_left q
      further (not_queued q refused one) = not_queued q (later r rounds refused) one
      further (part_written x q part) = part_written x q part

  module _ (takes : TakesFront view write) (st : SendTask) where
    worker_loop-Complete :
        (rounds : List Round) (sp : Option Pooled) (s : Session W)
        → Complete view write spare rounds s (worker_loop write spare st rounds sp s)
    unfolding worker_loop
    worker_loop-Complete [] sp s = unchanged view write spare [] s running s.writer s.input refl
    worker_loop-Complete (r ∷ rounds) sp s = elim (Bool-cases r.cancelled) [
      | inl q ↦
          simp q (unchanged view write spare (r ∷ rounds) s context_done s.writer s.input refl)
      | inr q ↦
          let p = current st r.supply sp in
          simp q (
            after_send-Complete view write spare (r ∷ rounds) r.supply.taken p s
              (worker_loop write spare st rounds) p.buffer
              (write_buffer_and_send write spare p.buffer s.writer s.input)
              (λ refused. here r rounds q refused) refl
              (write_buffer_and_send-Writes view write takes spare p.buffer s.writer s.input)
              (λ p' s'. later-Complete r rounds s' _ (worker_loop-Complete rounds p' s')))
    ]

  -- The record of a state has no bytes: pushed first or last, it changes nothing.
  send_state_first :
      (rounds : List Round) (st : SendTask) (u : Supply) (state : Text) (s : Session W)
      (r : WorkerEnd E × Session W)
      → Complete view write spare rounds (send_state st u state s) r
      → Complete view write spare rounds s r
  unfolding send_state
  send_state_first rounds st u state s r c = by_push u.taken c
    where
      p : SendPacket
      p = record (new_send_packet st u).packet { state = state; packets = [] }

      by_push :
          (taken : Bool)
          → Complete view write spare rounds (push taken p s) r
          → Complete view write spare rounds s r
      by_push true c =
          logged_first view write spare rounds p s (push true p s) r refl
            (sym (append-nil (view s.writer))) c
      by_push false c = c

  send_state_last :
      (rounds : List Round) (st : SendTask) (u : Supply) (state : Text) (s s' : Session W)
      (e : WorkerEnd E)
      → Complete view write spare rounds s (e, s')
      → Complete view write spare rounds s (e, send_state st u state s')
  unfolding send_state
  send_state_last rounds st u state s s' e c = by_push u.taken
    where
      p : SendPacket
      p = record (new_send_packet st u).packet { state = state; packets = [] }

      by_push : (taken : Bool) → Complete view write spare rounds s (e, push taken p s')
      by_push true = record {
        new = c.new ++ (p ∷ []);
        tail = c.tail;
        logged = ap (λ l. l ++ (p ∷ [])) c.logged ∙ append_assoc s.logged c.new (p ∷ []);
        written =
            c.written
            ∙ ap (λ b. view s.writer ++ (b ++ c.tail))
                (sym (logged_bytes-append c.new (p ∷ []) ∙ append-nil (logged_bytes c.new)));
        tail_unlogged = c.tail_unlogged;
      }
      by_push false = c

  deferred-Complete :
      (rounds : List Round) (st : SendTask) (u : Supply) (s : Session W) (e : WorkerEnd E)
      (s' : Session W)
      → Complete view write spare rounds s (e, s')
      → Complete view write spare rounds s (deferred st u (e, s'))
  unfolding deferred
  deferred-Complete rounds st u s running s' c = c
  deferred-Complete rounds st u s e s' c = send_state_last rounds st u (codes "disconnect") s s' e c

  -- Over a target that takes bytes from the front of a write, and all of them unless it returns an
  -- error: whatever a client sends, in whatever parts, and however the task ends, but for a panic,
  -- the bytes that reached the target are those of the packets pushed to the log, in their order,
  -- and behind them at most one of these: if the context was done while the last packet waited for
  -- the queue, the bytes of that packet, which `writeBufferAndSend` had written; and if a write
  -- failed, a front of the buffer that holds its packet.
  pub worker-Complete :
      (takes : TakesFront view write) (st : SendTask) (first : Supply) (rounds : List Round)
      (last : Supply) (w : W) (input : List Arrival)
      → Complete view write spare rounds
          (record { logged = []; writer = w; input = input })
          (worker write spare st first rounds last w input)
  unfolding worker
  worker-Complete takes st first rounds last w input =
      let start : Session W = record { logged = []; writer = w; input = input } in
      let connected = send_state st first (codes "connect") start in
      let r = worker_loop write spare st rounds none connected in
      deferred-Complete rounds st last start r.0 r.1 (
        send_state_first rounds st first (codes "connect") start r
          (worker_loop-Complete takes st rounds none connected))
