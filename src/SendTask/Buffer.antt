-- ===== src/SendTask/Buffer.antt =====
-- `resizeSlice` of pkg/mysqlproxy/sendtask.go, on Go slices.
use mysql8_audit_proxy.Base.{
  ℕ, ◌+◌, ◌-◌, ◌≤◌, ◌<◌, ◌≡◌, Option, none, some, ◌++◌, Text, length, take, drop, replicate, ltb,
  leb, ge→ltb, lt→ltb, if◌then◌else◌, arith,
}

-- A slice: the memory from its first element up to its capacity, and its length.
pub record Slice : Type 0 where
  pub mem : Text
  pub len : ℕ

abbrev pub bytes : Slice → Text
bytes b = take b.len b.mem

-- `b[:n]`, which panics beyond the capacity.
unfoldable pub reslice : ℕ → Slice → Option Slice
reslice n b = if ltb (length b.mem) n then none else some (record b { len = n })

-- `append(b, make([]byte, n)...)`: in place if there is room, and in new memory otherwise, which may
-- have `spare` bytes more.
unfoldable pub append_zeros : ℕ → ℕ → Slice → Slice
append_zeros spare n b = record {
  mem =
      bytes b
      ++ (replicate n 0
          ++ (if leb (b.len + n) (length b.mem)
              then drop (b.len + n) b.mem
              else replicate spare 0));
  len = b.len + n;
}

-- `none` is a panic.
unfoldable pub resize_slice : ℕ → Slice → ℕ → Option Slice
unfolding append_zeros reslice
resize_slice spare b size =
    if ltb (length b.mem) size
    then some (append_zeros spare (size - length b.mem) b)
    else reslice size b

-- What a read delivers is stored at a place.
unfoldable pub store_at : ℕ → Text → Slice → Slice
store_at i got b = record b { mem = take i b.mem ++ (got ++ drop (i + length got) b.mem) }

pub resize_slice-room :
    (spare : ℕ) (b : Slice) (size : ℕ)
    → size ≤ length b.mem
    → resize_slice spare b size ≡ some (record b { len = size })
unfolding resize_slice
resize_slice-room spare b size h = rw (ge→ltb (length b.mem) size h)

-- Without the room, a slice grows by what its capacity lacks: to the size asked for if it is full,
-- and to less otherwise.
pub resize_slice-grown :
    (spare : ℕ) (b : Slice) (size : ℕ)
    → length b.mem < size
    → (b' : Slice) × (resize_slice spare b size ≡ some b') × (b'.len + length b.mem ≡ b.len + size)
unfolding resize_slice append_zeros
resize_slice-grown spare b size h =
    (append_zeros spare (size - length b.mem) b, rw (lt→ltb (length b.mem) size h), omega arith)
