-- ===== src/SendTask/Packets/Writes.antt =====
-- What `writeBufferAndSend` writes, whatever it reads.
use mysql8_audit_proxy.Base.{
  ℕ, ◌+◌, ◌≡◌, ◌⊎◌, inl, inr, refl, sym, ap, ◌∙◌, append_assoc, drop, take-append-drop, false,
  Bool-cases, Option, none, some, List, ◌++◌, Text, length, take, ltb,
}
use mysql8_audit_proxy.SendTask.{
  Arrival, PacketError, end_of_file, unexpected_eof, read_failed, FullRead, read_done, read_error,
  waiting, read_full_mysql_packet,
}
use mysql8_audit_proxy.SendTask.Buffer.{Slice, bytes, resize_slice, store_at}
use mysql8_audit_proxy.SendTask.Packets.{
  end_of_input, header_failed, data_failed, write_failed, Sent, sent, send_error, send_panic,
  send_waiting, packet_length, header_error, after_write, after_data, read_data, after_header,
  read_header, write_buffer_and_send,
}

module _ {E W : Type 0} (view : W → Text) where
  -- A write takes bytes from the front, and all of them unless it returns an error.
  abbrev pub TakesFront : (Text → W → (ℕ × Option E) × W) → Type 0
  TakesFront write =
      (b : Text) (w : W)
      → (front : Text) × (back : Text) × (view (write b w).1 ≡ view w ++ front)
        × (front ++ back ≡ b)
        × ((front ≡ b) ⊎ ((e : E) × ((write b w).0.1 ≡ some e)))

  -- What a packet that is sent, or is not, has written.
  abbrev pub Writes : W → Sent E W → Type 0
  Writes w (sent b w' input) = view w' ≡ view w ++ bytes b
  Writes w (send_error end_of_input b w' input) = (view w' ≡ view w) × (ltb 0 b.len ≡ false)
  Writes w (send_error (header_failed e) b w' input) = view w' ≡ view w
  Writes w (send_error (data_failed e) b w' input) = view w' ≡ view w
  Writes w (send_error (write_failed e) b w' input) =
      (front : Text) × (back : Text) × (view w' ≡ view w ++ front) × (front ++ back ≡ b.mem)
  Writes w send_panic = Unit
  Writes w (send_waiting w') = view w' ≡ view w

  after_write-Writes :
      (dst : Slice) (size : ℕ) (input : List Arrival) (w : W) (r : (ℕ × Option E) × W)
      (front back : Text)
      → view r.1 ≡ view w ++ front
      → front ++ back ≡ take (size + 4) dst.mem
      → (front ≡ take (size + 4) dst.mem) ⊎ ((e : E) × (r.0.1 ≡ some e))
      → Writes w (after_write dst size input r)
  unfolding after_write
  after_write-Writes dst size input w ((n, none), w') front back h parts (inl whole) =
      h ∙ ap (λ b. view w ++ b) whole
  after_write-Writes dst size input w ((n, none), w') front back h parts (inr (e, failed)) = cc
  after_write-Writes dst size input w ((n, some e), w') front back h parts whole = (
    front,
    back ++ drop (size + 4) dst.mem,
    h,
    sym (append_assoc front back (drop (size + 4) dst.mem))
        ∙ ap (λ b. b ++ drop (size + 4) dst.mem) parts
        ∙ take-append-drop (size + 4) dst.mem,
  )

  module _ (write : Text → W → (ℕ × Option E) × W) (takes : TakesFront write) where
    after_data-Writes :
        (dst : Slice) (size : ℕ) (w : W) (r : FullRead) → Writes w (after_data write dst size w r)
    unfolding after_data
    after_data-Writes dst size w (read_done got input) =
        let dst' = store_at 4 got dst in
        let (front, back, h, parts, whole) = takes (take (size + 4) dst'.mem) w in
        after_write-Writes dst' size input w (write (take (size + 4) dst'.mem) w) front back h parts
          whole
    after_data-Writes dst size w (read_error e got input) = refl
    after_data-Writes dst size w (waiting got) = refl

    read_data-Writes :
        (dst : Option Slice) (size : ℕ) (w : W) (input : List Arrival)
        → Writes w (read_data write dst size w input)
    unfolding read_data
    read_data-Writes none size w input = tt
    read_data-Writes (some dst) size w input = elim (Bool-cases (ltb (length dst.mem) (size + 4))) [
      | inl q ↦ rw q tt
      | inr q ↦ rw q (after_data-Writes dst size w (read_full_mysql_packet size input))
    ]

    header_error-Writes :
        (e : PacketError) (dst : Slice) (w : W) (input : List Arrival)
        → dst.len ≡ 0
        → Writes w (send_error (header_error e) dst w input)
    unfolding header_error
    header_error-Writes end_of_file dst w input h = (refl, rw h refl)
    header_error-Writes unexpected_eof dst w input h = refl
    header_error-Writes read_failed dst w input h = refl

    after_header-Writes :
        (spare : ℕ) (dst : Slice) (w : W) (r : FullRead)
        → Writes w (after_header write spare dst w r)
    unfolding after_header
    after_header-Writes spare dst w (read_done got input) =
        let dst' = store_at 0 got dst in
        let size = packet_length dst' in
        elim (Bool-cases (ltb dst'.len 3)) [
          | inl q ↦ rw q tt
          | inr q ↦ rw q (read_data-Writes (resize_slice spare dst' (size + 4)) size w input)
        ]
    after_header-Writes spare dst w (read_error e got input) =
        header_error-Writes e (record (store_at 0 got dst) { len = 0 }) w input refl
    after_header-Writes spare dst w (waiting got) = refl

    read_header-Writes :
        (spare : ℕ) (dst : Option Slice) (w : W) (input : List Arrival)
        → Writes w (read_header write spare dst w input)
    unfolding read_header
    read_header-Writes spare none w input = tt
    read_header-Writes spare (some dst) w input =
        after_header-Writes spare dst w (read_full_mysql_packet dst.len input)

    pub write_buffer_and_send-Writes :
        (spare : ℕ) (dst : Slice) (w : W) (input : List Arrival)
        → Writes w (write_buffer_and_send write spare dst w input)
    unfolding write_buffer_and_send
    write_buffer_and_send-Writes spare dst w input =
        read_header-Writes spare (resize_slice spare dst 4) w input
