-- ===== src/SendTask/Worker/Runs.antt =====
-- A session with one packet, and the theorems of the worker at it.
use mysql8_audit_proxy.Base.{
  ℕ, ◌+◌, ◌≤◌, refl, inl, Option, none, some, true, false, List, [], ◌∷◌, ◌++◌, Text, codes, length,
  replicate, length-replicate, append-nil, arith,
}
use mysql8_audit_proxy.SendPacket.{empty}
use mysql8_audit_proxy.SendTask.{Arrival, eof}
use mysql8_audit_proxy.SendTask.Worker.{SendTask, Supply, Round, worker}
use mysql8_audit_proxy.SendTask.Worker.Forwarding.{IsReady}
use mysql8_audit_proxy.SendTask.Worker.Tail.{Complete}
use mysql8_audit_proxy.SendTask.Worker.Completeness.{worker-Complete}

pub buffer_of : ℕ → Text
buffer_of n = replicate n 0

buffer_of_room : (n : ℕ) → n ≤ length (buffer_of n)
unfolding buffer_of
buffer_of_room n = omega (arith, length-replicate {A = ℕ} n 0)

abbrev pub task : SendTask
task = record { user = codes "root"; db = []; remote_addr = codes "::1"; conn_id = 7 }

-- With a buffer as large as those of the pool.
abbrev pub supply : Supply
supply = record {
  pooled = record { packet = empty; buffer = record { mem = buffer_of (0xffffff + 4); len = 0 } };
  now = 1700000000;
  taken = true;
}

abbrev pub rounds : List Round
rounds =
    record { cancelled = false; supply = supply }
    ∷ record { cancelled = false; supply = supply }
    ∷ []

abbrev pub packets : List (ℕ × Text)
packets = (0, 3 ∷ codes "select 1") ∷ []

abbrev pub arrivals : List Arrival
arrivals =
    record { bytes = 9 ∷ 0 ∷ 0 ∷ []; fault = none }
    ∷ record { bytes = 0 ∷ []; fault = none }
    ∷ record { bytes = 3 ∷ codes "select 1"; fault = none }
    ∷ []

abbrev pub closing : Arrival
closing = record { bytes = []; fault = some eof }

abbrev pub target : Text → Text → (ℕ × Option (Unit {0})) × Text
target b w = ((length b, none), w ++ b)

pub ready : IsReady (record { cancelled = false; supply = supply })
ready = record { going = refl; queued = refl; room = buffer_of_room (0xffffff + 4) }

worker-Complete_example :
    Complete
      (λ (w : Text). w)
      target
      0
      rounds
      (record { logged = []; writer = []; input = arrivals })
      (worker target 0 task supply rounds supply [] arrivals)
worker-Complete_example =
    worker-Complete (λ w. w) target 0 (λ b w. (b, [], refl, append-nil b, inl refl)) task supply
      rounds supply [] arrivals
