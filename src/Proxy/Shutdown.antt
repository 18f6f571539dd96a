-- ===== src/Proxy/Shutdown.antt =====
-- The goroutines of main.go around the queue of the log: `p.Start` of proxysrv.go with the sessions it
-- accepts, the worker of the log, and how they end.

pub mod Queue
pub mod Order
pub mod Panics
mod Runs
use mysql8_audit_proxy.Base.{ℕ, ◌<◌, ◌≡◌, Bool, true, false, List, [], ◌∷◌, ◌++◌, length}
use mysql8_audit_proxy.SendPacket.{SendPacket}

-- Where the goroutine of `p.Start` is: before `net.Listen`, in the loop of `acceptClntConn`, behind the
-- return of `Start`, behind `CloseChannel`, and behind `cancel`.
pub data Phase : Type 0 where
  starting accepting returned closed finished : Phase

abbrev pub is_closed : Phase → Bool
is_closed starting = false
is_closed accepting = false
is_closed returned = false
is_closed closed = true
is_closed finished = true

-- Whether the context is done, the queue, the packets that each session is about to push, whether
-- `LogWriteWorker` runs, what it received, and whether the program has panicked.
pub record System : Type 0 where
  pub done : Bool
  pub phase : Phase
  pub items : List SendPacket
  pub sessions : List (List SendPacket)
  pub writing : Bool
  pub received : List SendPacket
  pub panicked : Bool

abbrev pub at_start : System
at_start = record {
  done = false;
  phase = starting;
  items = [];
  sessions = [];
  writing = true;
  received = [];
  panicked = false;
}

abbrev pub capacity : ℕ
capacity = 1000

-- One step of one goroutine. A packet that is given up at the end of the context may end its session,
-- which then pushes other packets than it would have.
pub data Step : System → System → Type 0 where
  interrupt : (s : System) → Step s (record s { done = true })
  listen : (s : System) → s.phase ≡ starting → Step s (record s { phase = accepting })
  listen_fails : (s : System) → s.phase ≡ starting → Step s (record s { phase = returned })
  accept :
      (s : System) (packets : List SendPacket)
      → s.phase ≡ accepting
      → Step s (record s { sessions = packets ∷ s.sessions })
  start_returns :
      (s : System) → s.phase ≡ accepting → s.done ≡ true → Step s (record s { phase = returned })
  close_channel : (s : System) → s.phase ≡ returned → Step s (record s { phase = closed })
  cancel : (s : System) → s.phase ≡ closed → Step s (record s { phase = finished; done = true })
  push :
      (s : System) (before : List (List SendPacket)) (p : SendPacket) (ps : List SendPacket)
      (after : List (List SendPacket))
      → s.sessions ≡ before ++ ((p ∷ ps) ∷ after)
      → is_closed s.phase ≡ false
      → length s.items < capacity
      → Step s (record s { items = s.items ++ (p ∷ []); sessions = before ++ (ps ∷ after) })
  give_up :
      (s : System) (before : List (List SendPacket)) (p : SendPacket) (ps qs : List SendPacket)
      (after : List (List SendPacket))
      → s.sessions ≡ before ++ ((p ∷ ps) ∷ after)
      → s.done ≡ true
      → Step s (record s { sessions = before ++ (qs ∷ after) })
  push_closed :
      (s : System) (before : List (List SendPacket)) (p : SendPacket) (ps : List SendPacket)
      (after : List (List SendPacket))
      → s.sessions ≡ before ++ ((p ∷ ps) ∷ after)
      → is_closed s.phase ≡ true
      → Step s (record s { panicked = true })
  receive :
      (s : System) (p : SendPacket) (items : List SendPacket)
      → s.writing ≡ true
      → s.items ≡ p ∷ items
      → Step s (record s { items = items; received = s.received ++ (p ∷ []) })
  worker_cancelled :
      (s : System) → s.writing ≡ true → s.done ≡ true → Step s (record s { writing = false })
  worker_drained :
      (s : System)
      → s.writing ≡ true
      → is_closed s.phase ≡ true
      → s.items ≡ []
      → Step s (record s { writing = false })

-- The steps of a run; the program makes no step behind a panic.
pub data Steps : System → System → Type 0 where
  stay : (s : System) → Steps s s
  step : {s t u : System} → s.panicked ≡ false → Step s t → Steps t u → Steps s u
