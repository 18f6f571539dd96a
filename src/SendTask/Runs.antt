-- ===== src/SendTask/Runs.antt =====
-- A packet's header that arrives in two parts.
use mysql8_audit_proxy.Base.{refl, true, none, some, List, [], ◌∷◌, ◌≡◌}
use mysql8_audit_proxy.SendTask.{
  timeout, Arrival, read_done, by_fault, read_loop, read_full_mysql_packet,
}

abbrev arrivals : List Arrival
arrivals =
    record { bytes = 1 ∷ 0 ∷ []; fault = none }
    ∷ record { bytes = 0 ∷ 0 ∷ 14 ∷ []; fault = none }
    ∷ []

-- When the context is done, a part of the packet counts as the whole.
read_full_mysql_packet_done :
    read_full_mysql_packet 4 (record { bytes = 1 ∷ []; fault = some (timeout true) } ∷ [])
    ≡ read_done (1 ∷ []) []
unfolding read_full_mysql_packet read_loop by_fault
read_full_mysql_packet_done = refl
