-- ===== src/ProxySrv/Runs.antt =====
-- A server that accepts a connection, meets an error, and ends.
use mysql8_audit_proxy.Base.{false, true, Option, some, List, [], ◌∷◌, Text, codes, Result, ok, err}
use mysql8_audit_proxy.ProxySrv.{AcceptCall, Listener, Login}

abbrev calls : List (AcceptCall (Unit {0}) Text)
calls =
    record { done = false; result = ok (codes "first") }
    ∷ record { done = false; result = err tt }
    ∷ record { done = false; result = ok ([]) }
    ∷ record { done = true; result = err tt }
    ∷ []

-- The second client is refused.
abbrev handshake : Listener → Text → Option (Result (Unit {0}) Login)
handshake listener [] = some (err tt)
handshake listener (c ∷ conn) = some (ok (record { user = codes "root@db"; db = codes "test" }))
