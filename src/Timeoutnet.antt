-- ===== src/Timeoutnet.antt =====
-- pkg/timeoutnet/timeoutnet.go: a connection that is read and written with a time limit.
pub mod Forwarding
mod Runs
use mysql8_audit_proxy.Base.{
  ℕ, ◌+◌, ◌%◌, ◌^◌, Bool, Option, none, some, List, [], ◌∷◌, Text, if◌then◌else◌,
}

-- The errors of `net.Conn.Read`, and `ctx.Err()` of a context that was cancelled.
pub data ConnError : Type 0 where
  eof timeout broken context_done : ConnError

-- One round of `Read`: whether the context is done when it begins, and what the connection's `Read`
-- then delivers.
pub record Arrival : Type 0 where
  pub cancelled : Bool
  pub bytes : Text
  pub error : Option ConnError

-- `TimeoutReader.Read`.
unfoldable pub read : Arrival → Text × Option ConnError
read a = if a.cancelled then ([], some context_done) else (a.bytes, a.error)

-- What a write returns: the number of bytes and the error, and the writer's state.
abbrev pub Written : Type 0 → Type 0 → Type 0
Written E W = (ℕ × Option E) × W

pub data CopyError (E : Type 0) : Type 0 where
  reading : ConnError → CopyError E
  writing : E → CopyError E

-- `WriteTo` has returned, or waits for the next read. The total is the bit pattern of an int64.
pub data Copied (E W : Type 0) : Type 0 where
  returned : ℕ → Option (CopyError E) → W → Copied E W
  waiting : ℕ → W → Copied E W

module _ {E W : Type 0} where
  -- `TimeoutWriter.Write`, over the connection's `Write` and the error `done` of its context.
  unfoldable pub write_timeout : Bool → E → (Text → W → Written E W) → Text → W → Written E W
  write_timeout cancelled done write p w = if cancelled then ((0, some done), w) else write p w

  abbrev pub after_write : ℕ → (ℕ → W → Copied E W) → Written E W → Copied E W
  after_write total loop ((n, none), w) = loop ((total + n) % 2 ^ 64) w
  after_write total loop ((n, some e), w) = returned ((total + n) % 2 ^ 64) (some (writing e)) w

  module _ (write : Text → W → Written E W) where
    unfoldable pub after_read : ℕ → W → (ℕ → W → Copied E W) → Text × Option ConnError → Copied E W
    after_read total w loop (b, none) = after_write total loop (write b w)
    after_read total w loop (b, some eof) = returned total none w
    after_read total w loop (b, some timeout) = loop total w
    after_read total w loop (b, some broken) = returned total (some (reading broken)) w
    after_read total w loop (b, some context_done) = returned total (some (reading context_done)) w

    -- The loop of `WriteTo`, with what the next rounds of `Read` meet.
    unfoldable pub write_loop : ℕ → W → List Arrival → Copied E W
    unfolding after_read read
    write_loop total w [] = waiting total w
    write_loop total w (a ∷ arrivals) =
        after_read total w (λ total w. write_loop total w arrivals) (read a)

    unfoldable pub write_to : W → List Arrival → Copied E W
    unfolding write_loop
    write_to w arrivals = write_loop 0 w arrivals
