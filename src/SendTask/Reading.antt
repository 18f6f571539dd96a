-- ===== src/SendTask/Reading.antt =====
-- A buffer is filled alike, in whatever parts its bytes arrive.
use mysql8_audit_proxy.Base.{
  ℕ, zero, suc, ◌-◌, ◌≤◌, ◌≡◌, ◌⊎◌, inl, inr, refl, sym, ap, ◌∙◌, false, none, some, List, [], ◌∷◌,
  ◌++◌, Text, length, take, take-append_ge, drop-append_ge, take-append_le, drop-append_le, drop,
  ltb, All, arith, append-nil, append_assoc, length-append, Bool-cases, ge→ltb,
}
use mysql8_audit_proxy.SendTask.{
  timeout, eof, Arrival, end_of_file, read_error, eof_error, FullRead, read_done, by_fault,
  read_loop, read_full_mysql_packet,
}

-- No error, or a time limit that passed with the context not done.
abbrev pub IsData : Arrival → Type 0
IsData a = (a.fault ≡ none) ⊎ (a.fault ≡ some (timeout false))

abbrev pub content : List Arrival → Text
content [] = []
content (a ∷ arrivals) = a.bytes ++ content arrivals

-- The first bytes were read, and the others are left in front of what follows.
pub record Filled (more : List Arrival) (b rest : Text) (r : FullRead) : Type 0 where
  pub left : List Arrival
  pub left_data : All IsData left
  pub ends : r ≡ read_done b (left ++ more)
  pub left_content : content left ≡ rest

by_fault-IsData :
    (a : Arrival) (got : Text) (arrivals : List Arrival) (further : FullRead)
    → IsData a
    → by_fault a.fault got arrivals further ≡ further
unfolding by_fault
by_fault-IsData a got arrivals further (inl e) = rw (e, by_fault)
by_fault-IsData a got arrivals further (inr e) = rw (e, by_fault)

read_loop-Filled :
    (arrivals more : List Arrival) (n : ℕ) (got : Text)
    → All IsData arrivals
    → n ≤ length (content arrivals)
    → Filled more
        (got ++ take n (content arrivals))
        (drop n (content arrivals))
        (read_loop n got (arrivals ++ more))
unfolding read_loop
read_loop-Filled arrivals more zero got h hn = record {
  left = arrivals;
  left_data = h;
  ends = ap (λ b. read_done b (arrivals ++ more)) (sym (append-nil got));
  left_content = refl;
}
read_loop-Filled [] more (suc n) got h hn = absurd (omega arith)
read_loop-Filled (a ∷ arrivals) more (suc n) got h hn =
    elim (Bool-cases (ltb (suc n) (length a.bytes))) [
      | inl q ↦
          let small : suc n ≤ length a.bytes = ground arith in
          record {
            left = record a { bytes = drop (suc n) a.bytes } ∷ arrivals;
            left_data = h;
            ends = rw (q, take-append_le (suc n) a.bytes (content arrivals) small);
            left_content = sym (drop-append_le (suc n) a.bytes (content arrivals) small);
          }
      | inr q ↦
          let large : length a.bytes ≤ suc n = ground arith in
          let f =
            read_loop-Filled arrivals more (suc n - length a.bytes) (got ++ a.bytes) h.1
              (omega (arith, length-append a.bytes (content arrivals))) in
          let all = sym (take-append_ge (suc n) a.bytes (content arrivals) large) in
          record {
            left = f.left;
            left_data = f.left_data;
            ends = rw q (
                by_fault-IsData a _ (arrivals ++ more) _ h.0
                ∙ f.ends
                ∙ ap (λ b. read_done b (f.left ++ more))
                    (append_assoc got a.bytes _ ∙ ap (λ b. got ++ b) all));
            left_content =
                f.left_content ∙ sym (drop-append_ge (suc n) a.bytes (content arrivals) large);
          }
    ]

-- If so many bytes arrive, in whatever parts and with time limits that pass in between, the buffer is
-- filled with the first of them, no error is returned, and the others are left for the next read.
pub read_full_mysql_packet-Filled :
    (arrivals more : List Arrival) (n : ℕ)
    → All IsData arrivals
    → n ≤ length (content arrivals)
    → Filled more
        (take n (content arrivals))
        (drop n (content arrivals))
        (read_full_mysql_packet n (arrivals ++ more))
unfolding read_full_mysql_packet
read_full_mysql_packet-Filled arrivals more n h hn = read_loop-Filled arrivals more n [] h hn

-- Nothing but the end of the connection is left.
abbrev pub IsClosing : Arrival → Type 0
IsClosing a = (a.bytes ≡ []) × (a.fault ≡ some eof)

append-eq-nil : (xs ys : Text) → xs ++ ys ≡ [] → (xs ≡ []) × (ys ≡ [])
append-eq-nil [] ys e = (refl, e)
append-eq-nil (x ∷ xs) ys e = cc

read_loop-end :
    (arrivals : List Arrival) (n : ℕ) (a : Arrival) (rest : List Arrival)
    → All IsData arrivals
    → content arrivals ≡ []
    → IsClosing a
    → read_loop (suc n) [] (arrivals ++ (a ∷ rest)) ≡ read_error end_of_file [] rest
unfolding read_loop by_fault eof_error
read_loop-end [] n a rest h e (none_left, closed) =
    rw (none_left, closed, by_fault) (rw (ge→ltb (suc n) 0 (omega arith)))
read_loop-end (x ∷ arrivals) n a rest (h, hs) e c =
    let (nothing, others) = append-eq-nil x.bytes (content arrivals) e in
    let same : suc n - 0 ≡ suc n = omega arith in
    rw nothing (
      rw (ge→ltb (suc n) 0 (omega arith), same)
        (by_fault-IsData x [] (arrivals ++ (a ∷ rest)) _ h
          ∙ read_loop-end arrivals n a rest hs others c))

-- Where no byte is left in front of it, the end of the connection is returned as `io.EOF`.
pub read_full_mysql_packet-end :
    (arrivals : List Arrival) (n : ℕ) (a : Arrival) (rest : List Arrival)
    → All IsData arrivals
    → content arrivals ≡ []
    → IsClosing a
    → read_full_mysql_packet (suc n) (arrivals ++ (a ∷ rest)) ≡ read_error end_of_file [] rest
unfolding read_full_mysql_packet
read_full_mysql_packet-end arrivals n a rest h e c = read_loop-end arrivals n a rest h e c
