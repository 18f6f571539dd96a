-- ===== src/Proxy/Shutdown/Runs.antt =====
-- A session that pushes its packets, and one that meets the closed queue.
use mysql8_audit_proxy.Base.{◌+◌, ◌≡◌, refl, true, [], ◌∷◌, arith}
use mysql8_audit_proxy.SendPacket.{empty}
use mysql8_audit_proxy.Proxy.Shutdown.{
  accepting, returned, closed, System, at_start, interrupt, listen, accept, start_returns,
  close_channel, push, push_closed, receive, Steps, stay, step,
}
use mysql8_audit_proxy.Proxy.Shutdown.Queue.{weight, arrivals, total, steps-total}
use mysql8_audit_proxy.Proxy.Shutdown.Panics.{steps-panicked, interrupt-panicked}
use mysql8_audit_proxy.Base.{Bool, ◌==◌, ◌++◌, codes, inl, inr}
use mysql8_audit_proxy.SendPacket.{SendPacket}
use mysql8_audit_proxy.Proxy.Shutdown.Order.{mine, all_mine, steps-seen}

abbrev listening : System
listening = record at_start { phase = accepting }

abbrev in_session : System
in_session = record listening { sessions = (empty ∷ []) ∷ [] }

abbrev pushed_one : System
pushed_one = record in_session { items = empty ∷ []; sessions = [] ∷ [] }

abbrev received_one : System
received_one = record pushed_one { items = []; received = empty ∷ [] }

logging : Steps at_start received_one
logging = step refl (listen at_start refl) (
    step refl (accept listening (empty ∷ []) refl) (
      step refl (push in_session [] empty [] [] refl refl (omega arith))
        (step refl (receive pushed_one empty [] refl refl) (stay received_one))))

steps-total_example :
    total (λ p. 1) received_one ≡ total (λ p. 1) at_start + weight (λ p. 1) (arrivals logging)
steps-total_example = steps-total (λ p. 1) logging refl

abbrev interrupted : System
interrupted = record in_session { done = true }

abbrev returning : System
returning = record interrupted { phase = returned }

abbrev closing : System
closing = record returning { phase = closed }

abbrev crashed : System
crashed = record closing { panicked = true }

crashing : Steps at_start crashed
crashing = step refl (listen at_start refl) (
    step refl (accept listening (empty ∷ []) refl) (
      step refl (interrupt in_session) (
        step refl (start_returns interrupted refl refl) (
          step refl (close_channel returning refl)
            (step refl (push_closed closing [] empty [] [] refl refl) (stay crashed))))))

steps-panicked_example : crashed.done ≡ true
steps-panicked_example = steps-panicked crashing refl

interrupt-panicked_example : (t : System) × Steps in_session t × (t.panicked ≡ true)
interrupt-panicked_example = interrupt-panicked in_session [] empty [] [] refl refl refl

-- Two sessions: the packets of the one go to the log around that of the other.
abbrev of_two : SendPacket
of_two = record empty { connection_id = 2 }

abbrev first_of_one : SendPacket
first_of_one = record empty { connection_id = 1; packets = codes "a" }

abbrev last_of_one : SendPacket
last_of_one = record empty { connection_id = 1; packets = codes "b" }

abbrev with_one : System
with_one = record listening { sessions = (first_of_one ∷ last_of_one ∷ []) ∷ [] }

abbrev with_two : System
with_two = record with_one { sessions = (of_two ∷ []) ∷ with_one.sessions }

abbrev one_pushed : System
one_pushed = record with_two {
  items = first_of_one ∷ [];
  sessions = (of_two ∷ []) ∷ (last_of_one ∷ []) ∷ [];
}

abbrev two_pushed : System
two_pushed = record one_pushed {
  items = first_of_one ∷ of_two ∷ [];
  sessions = [] ∷ (last_of_one ∷ []) ∷ [];
}

abbrev two_received : System
two_received = record two_pushed { items = of_two ∷ []; received = first_of_one ∷ [] }

interleaving : Steps at_start two_received
interleaving = step refl (listen at_start refl) (
    step refl (accept listening (first_of_one ∷ last_of_one ∷ []) refl) (
      step refl (accept with_one (of_two ∷ []) refl) (
        step refl
          (push with_two ((of_two ∷ []) ∷ []) first_of_one (last_of_one ∷ []) [] refl refl
            (omega arith))
          (step refl
            (push one_pushed [] of_two [] ((last_of_one ∷ []) ∷ []) refl refl (omega arith))
            (step refl (receive two_pushed first_of_one (of_two ∷ []) refl refl)
              (stay two_received))))))

abbrev is_of_one : SendPacket → Bool
is_of_one p = p.connection_id == 1

steps-seen_example :
    mine is_of_one two_received.received
      ++ (mine is_of_one two_received.items ++ all_mine is_of_one two_received.sessions)
    ≡ mine is_of_one (arrivals interleaving)
unfolding interleaving
steps-seen_example =
    steps-seen is_of_one interleaving refl
      (tt, (inr (omega arith), (inl (omega arith), (tt, (tt, (tt, tt))))))
