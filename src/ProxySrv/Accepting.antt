-- ===== src/ProxySrv/Accepting.antt =====
-- For which connections there are sessions, and with which certificates.
use mysql8_audit_proxy.Base.{
  ℕ, ◌≡◌, Bool, true, false, ◌||◌, Option, none, some, List, [], ◌∷◌, Text, Result, ok, err,
  if◌then◌else◌,
}
use mysql8_audit_proxy.Timeoutnet.{Written}
use mysql8_audit_proxy.GeneratePem
use mysql8_audit_proxy.GeneratePem.{GenerateError}
use mysql8_audit_proxy.ClientSess.Relay.{ClientSess, Peers, session_worker}
use mysql8_audit_proxy.ProxySrv.{
  AcceptCall, AcceptEnd, stopped, accepting, Listener, Login, ConnEnd, refused, handshake_panicked,
  served,
}

abbrev pub end_of : Bool → AcceptEnd
end_of true = stopped
end_of false = accepting

module _ {E N : Type 0} where
  -- The calls before the first one behind which the context is done, and whether there is such a call.
  abbrev pub before_done : List (AcceptCall E N) → List (AcceptCall E N)
  before_done [] = []
  before_done (a ∷ calls) = let rest = before_done calls in if a.done then [] else a ∷ rest

  abbrev pub is_done : List (AcceptCall E N) → Bool
  is_done [] = false
  is_done (a ∷ calls) = a.done || is_done calls

  abbrev pub connections : List (Result E N) → List N
  connections [] = []
  connections (ok conn ∷ results) = conn ∷ connections results
  connections (err e ∷ results) = connections results

module _ {E G W C N : Type 0} (write_target : Text → W → (ℕ × Option E) × W)
    (write_client : Text → C → Written E C) (spare : ℕ) (get_password : Text → Result G Text)
    (connect : ClientSess → Option E) (admin_user : Text)
    (handshake : Listener → N → Option (Result E Login)) (peers : N → Peers W C) where
  -- A connection's session, as its handshake says: a panic, an error, or the session of the name and the
  -- data base that the client has given.
  pub data SessionOf (listener : Listener) (conn : N) : ConnEnd E W C → Type 0 where
    not_shaken : handshake listener conn ≡ none → SessionOf listener conn handshake_panicked
    not_let_in :
        (e : E) → handshake listener conn ≡ some (err e) → SessionOf listener conn (refused e)
    let_in :
        (user db : Text)
        → handshake listener conn ≡ some (ok (record { user = user; db = db }))
        → SessionOf listener conn (
            served (
              session_worker write_target write_client spare get_password connect admin_user user db
                (peers conn)))

  -- One session for each connection, in their order.
  pub data Sessions (listener : Listener) : List N → List (ConnEnd E W C) → Type 0 where
    no_more : Sessions listener [] []
    one_more :
        (conn : N) (e : ConnEnd E W C) {conns : List N} {ends : List (ConnEnd E W C)}
        → SessionOf listener conn e
        → Sessions listener conns ends
        → Sessions listener (conn ∷ conns) (e ∷ ends)
