-- ===== src/Timeoutnet/Forwarding.antt =====
-- What `WriteTo` forwards.
use mysql8_audit_proxy.Base.{
  ℕ, ◌+◌, ◌%◌, ◌^◌, ◌<◌, ◌≡◌, ◌⊎◌, inl, inr, refl, sym, ap, ◌∙◌, true, false, Option, none, some,
  List, [], ◌∷◌, ◌++◌, Text, length, All, arith, append-nil, append_assoc, length-append,
}
use mysql8_audit_proxy.Timeoutnet.{
  eof, timeout, context_done, Arrival, read, Written, CopyError, reading, Copied, returned,
  after_write, after_read, write_loop, write_to,
}

-- Bytes without an error, or a time limit that passed with none.
abbrev pub IsData : Arrival → Type 0
IsData a = (a.cancelled ≡ false) × ((a.error ≡ none) ⊎ ((a.error ≡ some timeout) × (a.bytes ≡ [])))

abbrev pub content : List Arrival → Text
content [] = []
content (a ∷ arrivals) = a.bytes ++ content arrivals

-- Behind the data the connection is closed, or the context is cancelled: with what the copy returns.
abbrev pub EndsWith : {E : Type 0} → Arrival → Option (CopyError E) → Type 0
EndsWith a e =
    ((a.cancelled ≡ false) × (a.error ≡ some eof) × (e ≡ none))
    ⊎ ((a.cancelled ≡ true) × (e ≡ some (reading context_done)))

read-bytes : (a : Arrival) → a.cancelled ≡ false → a.error ≡ none → read a ≡ (a.bytes, none)
unfolding read
read-bytes a c at = rw (c, at)

-- A writer that takes all bytes; `view` is what it has taken.
module _ {E W : Type 0} (view : W → Text) (write : Text → W → Written E W)
    (takes : (b : Text) (w : W)
      → ((write b w).0 ≡ (length b, none)) × (view (write b w).1 ≡ view w ++ b)) where
  -- The copy has returned, has counted the bytes, and has written them.
  pub record Forwarded (w : W) (total : ℕ) (b : Text) (e : Option (CopyError E)) (r : Copied E W)
      : Type 0 where
    pub last : W
    pub ends : r ≡ returned ((total + length b) % 2 ^ 64) e last
    pub forwarded : view last ≡ view w ++ b

  write_loop-end :
      (total : ℕ) (w : W) (a : Arrival) (rest : List Arrival) (e : Option (CopyError E))
      → EndsWith a e
      → write_loop write total w (a ∷ rest) ≡ returned total e w
  unfolding write_loop after_read read
  write_loop-end total w a rest e (inl (c, at, is)) = rw (c, at, is, after_read)
  write_loop-end total w a rest e (inr (c, is)) = rw (c, is, after_read)

  write_loop-bytes :
      (total : ℕ) (w : W) (a : Arrival) (rest : List Arrival)
      → a.cancelled ≡ false
      → a.error ≡ none
      → write_loop write total w (a ∷ rest)
        ≡ write_loop write ((total + length a.bytes) % 2 ^ 64) (write a.bytes w).1 rest
  unfolding write_loop after_read
  write_loop-bytes total w a rest c at =
      let loop = λ (t : ℕ) (v : W). write_loop write t v rest in
      ap (after_read write total w loop) (read-bytes a c at)
      ∙ ap (λ r. after_write total loop (r, (write a.bytes w).1)) (takes a.bytes w).0

  write_loop-timeout :
      (total : ℕ) (w : W) (a : Arrival) (rest : List Arrival)
      → a.cancelled ≡ false
      → a.error ≡ some timeout
      → write_loop write total w (a ∷ rest) ≡ write_loop write total w rest
  unfolding write_loop after_read read
  write_loop-timeout total w a rest c at = rw (c, at, after_read)

  write_loop-Forwarded :
      (arrivals : List Arrival) (total : ℕ) (w : W) (a : Arrival) (rest : List Arrival)
      (e : Option (CopyError E))
      → All IsData arrivals
      → EndsWith a e
      → total < 2 ^ 64
      → Forwarded w total (content arrivals) e (write_loop write total w (arrivals ++ (a ∷ rest)))
  write_loop-Forwarded [] total w a rest e h he small =
      let same : total ≡ (total + 0) % 2 ^ 64 = omega arith in
      record {
        last = w;
        ends = write_loop-end total w a rest e he ∙ ap (λ t. returned t e w) same;
        forwarded = sym (append-nil (view w));
      }
  write_loop-Forwarded (x ∷ arrivals) total w a rest e ((c, inl at), h) he small =
      let w' = (write x.bytes w).1 in
      let total' = (total + length x.bytes) % 2 ^ 64 in
      let f = write_loop-Forwarded arrivals total' w' a rest e h he (omega arith) in
      let same : (total' + length (content arrivals)) % 2 ^ 64
          ≡ (total + length (x.bytes ++ content arrivals)) % 2 ^ 64 =
        omega (arith, length-append x.bytes (content arrivals)) in
      record {
        last = f.last;
        ends =
            write_loop-bytes total w x (arrivals ++ (a ∷ rest)) c at
            ∙ f.ends
            ∙ ap (λ t. returned t e f.last) same;
        forwarded =
            f.forwarded
            ∙ ap (λ v. v ++ content arrivals) (takes x.bytes w).1
            ∙ append_assoc (view w) x.bytes (content arrivals);
      }
  write_loop-Forwarded (x ∷ arrivals) total w a rest e ((c, inr (at, nothing)), h) he small =
      let f = write_loop-Forwarded arrivals total w a rest e h he small in
      let same : content arrivals ≡ x.bytes ++ content arrivals = rw nothing refl in
      record {
        last = f.last;
        ends =
            write_loop-timeout total w x (arrivals ++ (a ∷ rest)) c at
            ∙ f.ends
            ∙ ap (λ b. returned ((total + length b) % 2 ^ 64) e f.last) same;
        forwarded = f.forwarded ∙ ap (λ b. view w ++ b) same;
      }

  -- Over a writer that takes all bytes, `WriteTo` writes every byte that arrives, in order and through
  -- any time limits that pass without bytes, until the connection is closed or the context is
  -- cancelled; it returns their number, and no error where the connection was closed.
  pub write_to-Forwarded :
      (arrivals : List Arrival) (w : W) (a : Arrival) (rest : List Arrival)
      (e : Option (CopyError E))
      → All IsData arrivals
      → EndsWith a e
      → Forwarded w 0 (content arrivals) e (write_to write w (arrivals ++ (a ∷ rest)))
  unfolding write_to
  write_to-Forwarded arrivals w a rest e h he =
      write_loop-Forwarded arrivals 0 w a rest e h he (omega arith)
