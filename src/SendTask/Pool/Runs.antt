-- ===== src/SendTask/Pool/Runs.antt =====
-- A packet that is loaded, pushed, written, and loaded again for another push.
use mysql8_audit_proxy.Base.{ℕ, true, refl, [], ◌∷◌, codes}
use mysql8_audit_proxy.SendPacket.{SendPacket, empty}
use mysql8_audit_proxy.SendTask.Pool.{
  Objects, set_contents, make, get, fill, push, receive, write, Moves, stay, step, no_packets,
}
use mysql8_audit_proxy.SendTask.Pool.Owned.{IsOwned, Merged, written, lost, taken, run-IsOwned}

abbrev blank : ℕ → SendPacket
blank i = empty

abbrev first : SendPacket
first = record empty { packets = codes "one" }

abbrev second : SendPacket
second = record empty { packets = codes "two" }

abbrev made : Objects
made = record (no_packets blank) { contents = set_contents 0 empty blank; next = 1; held = 0 ∷ [] }

abbrev loaded : Objects
loaded = record made { contents = set_contents 0 first made.contents }

abbrev sent : Objects
sent = record loaded { held = []; queue = 0 ∷ []; pushed = first ∷ [] }

abbrev popped : Objects
popped = record sent { queue = []; writing = 0 ∷ [] }

abbrev logged : Objects
logged = record popped { writing = []; pool = 0 ∷ []; given = (first, true) ∷ [] }

abbrev reused : Objects
reused = record logged { pool = []; held = 0 ∷ [] }

abbrev refilled : Objects
refilled = record reused { contents = set_contents 0 second reused.contents }

abbrev resent : Objects
resent = record refilled { held = []; queue = 0 ∷ []; pushed = first ∷ second ∷ [] }

reusing : Moves (no_packets blank) resent
reusing = step (make (no_packets blank) empty) (
    step (fill made [] 0 [] first refl) (
      step (push loaded [] 0 [] refl) (
        step (receive sent 0 [] refl refl) (
          step (write popped 0 true refl) (
            step (get logged [] 0 [] refl) (
              step (fill reused [] 0 [] second refl)
                (step (push refilled [] 0 [] refl) (stay resent))))))))

run-IsOwned_example :
    IsOwned resent × Merged (written resent.given) (lost resent.given) (taken resent.given)
run-IsOwned_example = run-IsOwned blank reusing
