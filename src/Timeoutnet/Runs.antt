-- ===== src/Timeoutnet/Runs.antt =====
-- A connection that is copied into memory.
use mysql8_audit_proxy.Base.{
  refl, false, Bool, inl, inr, none, some, List, [], ◌∷◌, ◌++◌, Text, codes, length,
}
use mysql8_audit_proxy.Timeoutnet.{timeout, eof, Arrival, Written, write_to}
use mysql8_audit_proxy.Timeoutnet.Forwarding.{Forwarded, content, write_to-Forwarded}

abbrev into_memory : Text → Text → Written Bool Text
into_memory b w = ((length b, none), w ++ b)

abbrev arrivals : List Arrival
arrivals =
    record { cancelled = false; bytes = codes "sel"; error = none }
    ∷ record { cancelled = false; bytes = []; error = some timeout }
    ∷ record { cancelled = false; bytes = codes "ect"; error = none }
    ∷ []

abbrev closing : Arrival
closing = record { cancelled = false; bytes = []; error = some eof }

write_to-Forwarded_example :
    Forwarded
      (λ (w : Text). w)
      into_memory
      (λ b w. (refl, refl))
      []
      0
      (content arrivals)
      none
      (write_to into_memory [] (arrivals ++ (closing ∷ [])))
write_to-Forwarded_example =
    write_to-Forwarded (λ w. w) into_memory (λ b w. (refl, refl)) arrivals [] closing [] none
      ((refl, inl refl), ((refl, inr (refl, refl)), ((refl, inl refl), tt)))
      (inl (refl, refl, refl))
