-- ===== src/SendTask/Worker.antt =====
-- `Worker` of pkg/mysqlproxy/sendtask.go: it sends on what the client sends, packet by packet, and
-- pushes a copy of each to the log.
pub mod Forwarding
pub mod Tail
pub mod Completeness
pub mod Runs
use mysql8_audit_proxy.Base.{
  ℕ, Bool, Option, none, some, List, [], ◌∷◌, ◌++◌, Text, codes, ltb, if◌then◌else◌,
}
use mysql8_audit_proxy.SendPacket.{SendPacket}
use mysql8_audit_proxy.SendTask.{Arrival}
use mysql8_audit_proxy.SendTask.Buffer.{Slice, bytes}
use mysql8_audit_proxy.SendTask.Packets.{
  SendError, end_of_input, header_failed, data_failed, write_failed, Sent, sent, send_error,
  send_panic, send_waiting, write_buffer_and_send,
}

-- The fields that reach the log; `remote_addr` is that of the reader's connection.
pub record SendTask : Type 0 where
  pub user : Text
  pub db : Text
  pub remote_addr : Text
  pub conn_id : ℕ

-- A packet in the pool: its fields, and its `Packets` as a slice, which is what its sender left.
pub record Pooled : Type 0 where
  pub packet : SendPacket
  pub buffer : Slice

-- What the task meets where it takes a packet from the pool and pushes it: the packet, the time as
-- the bit pattern of an int64, and whether the queue takes it before the context is done.
pub record Supply : Type 0 where
  pub pooled : Pooled
  pub now : ℕ
  pub taken : Bool

-- One round of the loop: whether the context is done when it begins, and its supply.
pub record Round : Type 0 where
  pub cancelled : Bool
  pub supply : Supply

unfoldable pub new_send_packet : SendTask → Supply → Pooled
new_send_packet st s = record s.pooled {
  packet = record s.pooled.packet {
    datetime = s.now;
    user = st.user;
    addr = st.remote_addr;
    db = st.db;
    connection_id = st.conn_id;
    state = codes "est";
  };
}

-- What the log's worker receives of a packet.
abbrev pub pushed : Pooled → SendPacket
pushed p = record p.packet { packets = bytes p.buffer }

-- The packets pushed, the target's connection, and what is left of the client's input.
pub record Session (W : Type 0) : Type 0 where
  pub logged : List SendPacket
  pub writer : W
  pub input : List Arrival

abbrev pub push : {W : Type 0} → Bool → SendPacket → Session W → Session W
push taken p s = if taken then record s { logged = s.logged ++ (p ∷ []) } else s

-- The result of the push is ignored.
unfoldable pub send_state : {W : Type 0} → SendTask → Supply → Text → Session W → Session W
unfolding new_send_packet
send_state st u state s =
    let sp = new_send_packet st u in
    push u.taken (record sp.packet { state = state; packets = [] }) s

-- How the loop ends: `ctx.Err()` before a packet or where the queue does not take one, an error of
-- `writeBufferAndSend`, `io.EOF`, or a panic. A task may also wait.
pub data WorkerEnd (E : Type 0) : Type 0 where
  context_done : WorkerEnd E
  send_failed : SendError E → WorkerEnd E
  ended : WorkerEnd E
  panicked : WorkerEnd E
  running : WorkerEnd E

-- `sp`, or a new one if it is nil.
abbrev pub current : SendTask → Supply → Option Pooled → Pooled
current st u none = new_send_packet st u
current st u (some sp) = sp

module _ {E W : Type 0} where
  -- The packet is pushed if there is something in it.
  unfoldable pub deliver :
      Bool
      → Pooled
      → Session W
      → (Option Pooled → Session W → WorkerEnd E × Session W)
      → WorkerEnd E × Session W
  deliver taken sp s further =
      if ltb 0 sp.buffer.len
      then (if taken then further none (push taken (pushed sp) s) else (context_done, s))
      else further (some sp) s

  -- The body of the loop behind `writeBufferAndSend`.
  unfoldable pub after_send :
      Bool
      → Pooled
      → Session W
      → (Option Pooled → Session W → WorkerEnd E × Session W)
      → Sent E W
      → WorkerEnd E × Session W
  unfolding deliver
  after_send taken sp s further (sent b w input) =
      deliver taken (record sp { buffer = b }) (record s { writer = w; input = input }) further
  after_send taken sp s further (send_error end_of_input b w input) =
      deliver taken (record sp { buffer = b }) (record s { writer = w; input = input })
        (λ sp s. (ended, s))
  after_send taken sp s further (send_error e b w input) =
      (send_failed e, record s { writer = w; input = input })
  after_send taken sp s further send_panic = (panicked, s)
  after_send taken sp s further (send_waiting w) = (running, record s { writer = w })

  -- The deferred push of a loop that has ended.
  unfoldable pub deferred : SendTask → Supply → WorkerEnd E × Session W → WorkerEnd E × Session W
  unfolding send_state
  deferred st u (running, s) = (running, s)
  deferred st u (e, s) = (e, send_state st u (codes "disconnect") s)

  -- `write` is the `Write` of the target's connection, and `spare` what `append` chooses to add.
  module _ (write : Text → W → (ℕ × Option E) × W) (spare : ℕ) (st : SendTask) where
    unfoldable pub worker_loop : List Round → Option Pooled → Session W → WorkerEnd E × Session W
    unfolding after_send new_send_packet
    worker_loop [] sp s = (running, s)
    worker_loop (r ∷ rounds) sp s =
        let further = worker_loop rounds in
        if r.cancelled
        then (context_done, s)
        else (let p = current st r.supply sp in
            after_send r.supply.taken p s further
              (write_buffer_and_send write spare p.buffer s.writer s.input))

    unfoldable pub worker :
        Supply → List Round → Supply → W → List Arrival → WorkerEnd E × Session W
    unfolding worker_loop deferred send_state
    worker first rounds last w input = deferred st last (
        worker_loop rounds none (
          send_state st first (codes "connect")
            (record { logged = []; writer = w; input = input })))
