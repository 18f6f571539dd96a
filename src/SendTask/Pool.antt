-- ===== src/SendTask/Pool.antt =====
-- The packets as shared objects: the `sync.Pool` and the channel of log/auditlogwriter.go, and who holds a
-- packet in sendtask.go. The other modules pass packets as values.
pub mod Owned
mod Runs
use mysql8_audit_proxy.Base.{ℕ, Bool, ◌≡◌, ◌+◌, ◌==◌, if◌then◌else◌, List, [], ◌∷◌, ◌++◌}
use mysql8_audit_proxy.SendPacket.{SendPacket}

-- The objects by number: what each contains, and the numbers in use. Then who has a pointer: the
-- pool, the workers (of all sessions together, with the packets of `sendState`), the channel, and
-- `receiveAndWrite`. Last, what the packets contained when they were pushed, and when they were given to
-- `writeDataToFile`, each with whether its write succeeded.
pub record Objects : Type 0 where
  pub contents : ℕ → SendPacket
  pub next : ℕ
  pub pool : List ℕ
  pub held : List ℕ
  pub queue : List ℕ
  pub writing : List ℕ
  pub pushed : List SendPacket
  pub given : List (SendPacket × Bool)

abbrev pub set_contents : ℕ → SendPacket → (ℕ → SendPacket) → ℕ → SendPacket
set_contents i p contents j = if j == i then p else contents j

-- One step of one goroutine.
pub data Move : Objects → Objects → Type 0 where
  -- `GetSendPacket`: the pool makes a packet, or gives one that it has.
  make :
      (s : Objects) (p : SendPacket)
      → Move s (record s {
        contents = set_contents s.next p s.contents;
        next = s.next + 1;
        held = s.next ∷ s.held;
      })
  get :
      (s : Objects) (before : List ℕ) (i : ℕ) (after : List ℕ)
      → s.pool ≡ before ++ (i ∷ after)
      → Move s (record s { pool = before ++ after; held = i ∷ s.held })
  -- The garbage collector may empty the pool.
  forget :
      (s : Objects) (before : List ℕ) (i : ℕ) (after : List ℕ)
      → s.pool ≡ before ++ (i ∷ after)
      → Move s (record s { pool = before ++ after })
  -- `newSendPacket`, `sendState` and `writeBufferAndSend` write to the packet that the worker holds.
  fill :
      (s : Objects) (before : List ℕ) (i : ℕ) (after : List ℕ) (p : SendPacket)
      → s.held ≡ before ++ (i ∷ after)
      → Move s (record s { contents = set_contents i p s.contents })
  -- `PushToLogChannel` sends the pointer, and the worker sets its own to nil.
  push :
      (s : Objects) (before : List ℕ) (i : ℕ) (after : List ℕ)
      → s.held ≡ before ++ (i ∷ after)
      → Move s (record s {
        held = before ++ after;
        queue = s.queue ++ (i ∷ []);
        pushed = s.pushed ++ (s.contents i ∷ []);
      })
  -- The worker ends with a packet that it has not pushed.
  put :
      (s : Objects) (before : List ℕ) (i : ℕ) (after : List ℕ)
      → s.held ≡ before ++ (i ∷ after)
      → Move s (record s { held = before ++ after; pool = i ∷ s.pool })
  -- `sendState` returns with the error of the context, and drops its packet.
  abandon :
      (s : Objects) (before : List ℕ) (i : ℕ) (after : List ℕ)
      → s.held ≡ before ++ (i ∷ after)
      → Move s (record s { held = before ++ after })
  receive :
      (s : Objects) (i : ℕ) (rest : List ℕ)
      → s.queue ≡ i ∷ rest
      → s.writing ≡ []
      → Move s (record s { queue = rest; writing = i ∷ [] })
  -- `writeDataToFile`, which succeeds or fails, and `PutSendPacket` behind it in both cases.
  write :
      (s : Objects) (i : ℕ) (succeeds : Bool)
      → s.writing ≡ i ∷ []
      → Move s (record s {
        writing = [];
        pool = i ∷ s.pool;
        given = s.given ++ ((s.contents i, succeeds) ∷ []);
      })

pub data Moves : Objects → Objects → Type 0 where
  stay : (s : Objects) → Moves s s
  step : {s t u : Objects} → Move s t → Moves t u → Moves s u

-- No packet has been made.
abbrev pub no_packets : (ℕ → SendPacket) → Objects
no_packets contents = record {
  contents = contents;
  next = 0;
  pool = [];
  held = [];
  queue = [];
  writing = [];
  pushed = [];
  given = [];
}
