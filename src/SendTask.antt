-- ===== src/SendTask.antt =====
-- `readFullMysqlPacket` of pkg/mysqlproxy/sendtask.go: a buffer that is filled in as many reads as it
-- takes.
pub mod Reading
pub mod Buffer
pub mod Packets
pub mod Worker
pub mod Pool
pub mod Runs
use mysql8_audit_proxy.Base.{
  ℕ, zero, suc, ◌-◌, Bool, true, false, Option, none, some, List, [], ◌∷◌, ◌++◌, Text, length, take,
  drop, ltb, if◌then◌else◌,
}

-- What may come with the bytes of a read: a time limit that passed, with whether the context is done
-- by then, the end of the connection, or another error.
pub data Fault : Type 0 where
  timeout : (done : Bool) → Fault
  eof broken : Fault

-- What one read finds, if there is room for all of it.
pub record Arrival : Type 0 where
  pub bytes : Text
  pub fault : Option Fault

pub data PacketError : Type 0 where
  end_of_file unexpected_eof read_failed : PacketError

-- The call has returned the bytes read, maybe with an error, or it waits for the next read.
pub data FullRead : Type 0 where
  read_done : Text → List Arrival → FullRead
  read_error : PacketError → Text → List Arrival → FullRead
  waiting : Text → FullRead

-- `io.EOF` before the first byte, and `io.ErrUnexpectedEOF` behind it.
unfoldable pub eof_error : Text → PacketError
eof_error [] = end_of_file
eof_error (b ∷ got) = unexpected_eof

-- The `switch` on the error, with what `got` is after the read and how the loop goes on.
unfoldable pub by_fault : Option Fault → Text → List Arrival → FullRead → FullRead
unfolding eof_error
by_fault none got arrivals further = further
by_fault (some (timeout true)) got arrivals further = read_done got arrivals
by_fault (some (timeout false)) got arrivals further = further
by_fault (some eof) got arrivals further = read_error (eof_error got) got arrivals
by_fault (some broken) got arrivals further = read_error read_failed got arrivals

-- The loop with room for so many bytes more. A read without room returns at once, and does not look at
-- the context; what a read finds
-- beyond its room is left for the next one.
unfoldable pub read_loop : ℕ → Text → List Arrival → FullRead
unfolding by_fault
read_loop zero got arrivals = read_done got arrivals
read_loop (suc n) got [] = waiting got
read_loop (suc n) got (a ∷ arrivals) =
    let further = read_loop (suc n - length a.bytes) (got ++ a.bytes) arrivals in
    if ltb (suc n) (length a.bytes)
    then read_done (got ++ take (suc n) a.bytes)
        (record a { bytes = drop (suc n) a.bytes } ∷ arrivals)
    else by_fault a.fault (got ++ a.bytes) arrivals further

unfoldable pub read_full_mysql_packet : ℕ → List Arrival → FullRead
unfolding read_loop
read_full_mysql_packet n arrivals = read_loop n [] arrivals
