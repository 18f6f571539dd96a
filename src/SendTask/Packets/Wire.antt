-- ===== src/SendTask/Packets/Wire.antt =====
-- A packet of the MySQL protocol is sent on as it came.
use mysql8_audit_proxy.Base.{
  ℕ, ◌+◌, ◌^◌, ◌≤◌, ◌<◌, ◌≡◌, ap, ◌∙◌, Option, none, List, [], ◌∷◌, ◌++◌, Text, length, take, drop,
  ltb, if◌then◌else◌, All, ge→ltb, lt→ltb, true, arith, append_assoc, length-append,
  take-length-append, drop-length-append, length-drop,
}
use mysql8_audit_proxy.SendTask.{Arrival, read_done, read_full_mysql_packet}
use mysql8_audit_proxy.SendTask.Reading.{
  IsData, content, read_full_mysql_packet-Filled, IsClosing, read_full_mysql_packet-end,
}
use mysql8_audit_proxy.SendTask.Buffer.{Slice, bytes, store_at, resize_slice, resize_slice-room}
use mysql8_audit_proxy.SendTask.Packets.{
  end_of_input, Sent, sent, send_error, send_panic, packet_length, header_error, after_write,
  after_data, read_data, after_header, read_header, write_buffer_and_send,
}
use mysql8_audit_proxy.SendTask.Packets.Header.{
  header, wire, length-header, take-prefix, drop-prefix, store_at-header, packet_length-header,
  store_at-payload,
}

-- A writer that takes all bytes; `view` is what it has taken.
module _ {E W : Type 0} (view : W → Text) (write : Text → W → (ℕ × Option E) × W)
    (takes : (b : Text) (w : W)
      → ((write b w).0 ≡ (length b, none)) × (view (write b w).1 ≡ view w ++ b)) where
  -- The slice holds the packet, which was written, and the rest of the input is left.
  pub record SentOn (more : List Arrival) (w : W) (packet rest : Text) (r : Sent E W) : Type 0 where
    pub slice : Slice
    pub last : W
    pub left : List Arrival
    pub ends : r ≡ sent slice last (left ++ more)
    pub slice_bytes : bytes slice ≡ packet
    pub not_empty : ltb 0 slice.len ≡ true
    pub slice_room : 0xffffff + 4 ≤ length slice.mem
    pub written : view last ≡ view w ++ packet
    pub left_data : All IsData left
    pub left_content : content left ≡ rest

  after_data-payload :
      (front back payload : Text) (n : ℕ) (w : W) (input : List Arrival)
      → length front ≡ 4
      → after_data write
          (record { mem = front ++ back; len = n })
          (length payload)
          w
          (read_done payload input)
        ≡ sent
            (record {
              mem = (front ++ payload) ++ drop (length payload) back;
              len = length payload + 4;
            })
            (write (front ++ payload) w).1
            input
  unfolding after_data
  after_data-payload front back payload n w input h =
      let d = drop (length payload) back in
      let whole : take (length payload + 4) ((front ++ payload) ++ d) ≡ front ++ payload =
        take-prefix (length payload + 4) (front ++ payload) d
          (omega (arith, length-append front payload)) in
      let dst : Slice = record { mem = (front ++ payload) ++ d; len = n } in
      ap
        (λ (dst' : Slice).
          after_write dst' (length payload) input (write (take (length payload + 4) dst'.mem) w))
        (store_at-payload front back payload n h)
      ∙ ap (λ b. after_write dst (length payload) input (write b w)) whole
      ∙ ap (λ r. after_write dst (length payload) input (r, (write (front ++ payload) w).1))
          (takes (front ++ payload) w).0

  module _ (spare : ℕ) (b : Slice) (w : W) (room : 0xffffff + 4 ≤ length b.mem) where
    read_header-room :
        (input : List Arrival)
        → write_buffer_and_send write spare b w input
          ≡ after_header write spare (record b { len = 4 }) w (read_full_mysql_packet 4 input)
    unfolding write_buffer_and_send read_header
    read_header-room input =
        ap (λ s. read_header write spare s w input) (resize_slice-room spare b 4 (omega arith))

    -- At the end of the input `io.EOF` is returned, with an empty slice.
    pub write_buffer_and_send-end :
        (arrivals : List Arrival) (a : Arrival) (rest : List Arrival)
        → All IsData arrivals
        → content arrivals ≡ []
        → IsClosing a
        → (b' : Slice) × (write_buffer_and_send write spare b w (arrivals ++ (a ∷ rest))
            ≡ send_error end_of_input (record b' { len = 0 }) w rest)
    unfolding after_header header_error
    write_buffer_and_send-end arrivals a rest h hc closing = (
      store_at 0 [] (record b { len = 4 }),
      read_header-room (arrivals ++ (a ∷ rest))
          ∙ ap (after_header write spare (record b { len = 4 }) w)
              (read_full_mysql_packet-end arrivals 3 a rest h hc closing),
    )

    module _ (sequence : ℕ) (payload : Text) (short : length payload < 256 ^ 3) where
      mem_length : length payload + 4 ≤ length (header sequence payload ++ drop 4 b.mem)
      mem_length = omega (
        arith,
        length-append (header sequence payload) (drop 4 b.mem),
        length-header sequence payload,
        length-drop 4 b.mem,
      )

      after_header-header :
          (input : List Arrival)
          → after_header write spare
              (record b { len = 4 })
              w
              (read_done (header sequence payload) input)
            ≡ after_data write
                (record { mem = header sequence payload ++ drop 4 b.mem; len = length payload + 4 })
                (length payload)
                w
                (read_full_mysql_packet (length payload) input)
      unfolding after_header read_data
      after_header-header input =
          let dst : Slice = record { mem = header sequence payload ++ drop 4 b.mem; len = 4 } in
          let send = λ (dst' : Slice) (size : ℕ).
            read_data write (resize_slice spare dst' (size + 4)) size w input in
          ap
            (λ (dst' : Slice).
              if ltb dst'.len 3 then send_panic else send dst' (packet_length dst'))
            (store_at-header (record b { len = 4 }) sequence payload)
          ∙ ap (send dst) (packet_length-header sequence payload (drop 4 b.mem) 4 short)
          ∙ ap (λ s. read_data write s (length payload) w input)
              (resize_slice-room spare dst (length payload + 4) mem_length)
          ∙ rw (ge→ltb (length dst.mem) (length payload + 4) mem_length)

      pub write_buffer_and_send-SentOn :
          (arrivals more : List Arrival) (rest : Text)
          → All IsData arrivals
          → content arrivals ≡ wire sequence payload ++ rest
          → SentOn more w
              (wire sequence payload)
              rest
              (write_buffer_and_send write spare b w (arrivals ++ more))
      write_buffer_and_send-SentOn arrivals more rest h hc =
          let whole : length (content arrivals) ≡ length (wire sequence payload) + length rest =
            ap length hc ∙ length-append (wire sequence payload) rest in
          let size = length-append (header sequence payload) payload in
          let four = length-header sequence payload in
          let f = read_full_mysql_packet-Filled arrivals more 4 h (omega arith) in
          let parts : content arrivals ≡ header sequence payload ++ (payload ++ rest) =
            hc ∙ append_assoc (header sequence payload) payload rest in
          let begins : take 4 (content arrivals) ≡ header sequence payload =
            ap (take 4) parts ∙ take-prefix 4 (header sequence payload) (payload ++ rest) four in
          let behind : content f.left ≡ payload ++ rest =
            f.left_content
            ∙ ap (drop 4) parts
            ∙ drop-prefix 4 (header sequence payload) (payload ++ rest) four in
          let n = length payload in
          let g =
            read_full_mysql_packet-Filled f.left more n f.left_data
              (omega (arith, ap length behind, length-append payload rest)) in
          let all : take n (content f.left) ≡ payload =
            ap (take n) behind ∙ take-length-append payload rest in
          let d = drop 4 b.mem in
          let last = (write (wire sequence payload) w).1 in
          record {
            slice = record { mem = wire sequence payload ++ drop n d; len = n + 4 };
            last = last;
            left = g.left;
            ends =
                read_header-room (arrivals ++ more)
                ∙ ap (after_header write spare (record b { len = 4 }) w) f.ends
                ∙ ap
                    (λ got.
                      after_header write spare (record b { len = 4 }) w
                        (read_done got (f.left ++ more)))
                    begins
                ∙ after_header-header (f.left ++ more)
                ∙ ap
                    (after_data write (record { mem = header sequence payload ++ d; len = n + 4 }) n
                      w)
                    g.ends
                ∙ ap
                    (λ got.
                      after_data write (record { mem = header sequence payload ++ d; len = n + 4 })
                        n w (read_done got (g.left ++ more)))
                    all
                ∙ after_data-payload (header sequence payload) d payload (n + 4) w (g.left ++ more)
                    four;
            slice_bytes = take-prefix (n + 4) (wire sequence payload) (drop n d) (omega arith);
            not_empty = lt→ltb 0 (n + 4) (omega arith);
            slice_room = omega (
              arith,
              length-append (wire sequence payload) (drop n d),
              length-drop n d,
              length-drop 4 b.mem,
            );
            written = (takes (wire sequence payload) w).1;
            left_data = g.left_data;
            left_content = g.left_content ∙ ap (drop n) behind ∙ drop-length-append payload rest;
          }
