-- ===== src/SendTask/Packets.antt =====
-- `writeBufferAndSend` of pkg/mysqlproxy/sendtask.go: one packet is read, and written to the target.
pub mod Header
pub mod Wire
pub mod Writes
use mysql8_audit_proxy.Base.{
  ℕ, ◌+◌, Option, none, some, List, [], ◌∷◌, Text, length, take, ltb, if◌then◌else◌,
}
use mysql8_audit_proxy.Base.Bytes.{of_le_bytes}
use mysql8_audit_proxy.SendTask.{
  Arrival, PacketError, end_of_file, unexpected_eof, read_failed, FullRead, read_done, read_error,
  waiting, read_full_mysql_packet,
}
use mysql8_audit_proxy.SendTask.Buffer.{Slice, bytes, resize_slice, store_at}

-- The errors of `writeBufferAndSend`: `io.EOF` itself, or one that wraps the error of a read or of the
-- write.
pub data SendError (E : Type 0) : Type 0 where
  end_of_input : SendError E
  header_failed data_failed : PacketError → SendError E
  write_failed : E → SendError E

-- It returns the slice, with or without an error; or panics, or waits for a read. The writer's state and
-- what is left of the input go along.
pub data Sent (E W : Type 0) : Type 0 where
  sent : Slice → W → List Arrival → Sent E W
  send_error : SendError E → Slice → W → List Arrival → Sent E W
  send_panic : Sent E W
  send_waiting : W → Sent E W

-- The length of the payload, in the first three bytes.
unfoldable pub packet_length : Slice → ℕ
packet_length dst = of_le_bytes (take 3 dst.mem)

-- Before the first byte of a header `io.EOF` is passed on.
unfoldable pub header_error : {E : Type 0} → PacketError → SendError E
header_error end_of_file = end_of_input
header_error unexpected_eof = header_failed unexpected_eof
header_error read_failed = header_failed read_failed

module _ {E W : Type 0} where
  unfoldable pub after_write : Slice → ℕ → List Arrival → (ℕ × Option E) × W → Sent E W
  after_write dst length input ((n, none), w) = sent (record dst { len = length + 4 }) w input
  after_write dst length input ((n, some e), w) = send_error (write_failed e) dst w input

  -- `write` is the `Write` of the target's connection.
  module _ (write : Text → W → (ℕ × Option E) × W) where
    unfoldable pub after_data : Slice → ℕ → W → FullRead → Sent E W
    unfolding after_write store_at
    after_data dst length w (read_done got input) =
        let dst' = store_at 4 got dst in
        after_write dst' length input (write (take (length + 4) dst'.mem) w)
    after_data dst length w (read_error e got input) =
        send_error (data_failed e) (store_at 4 got dst) w input
    after_data dst length w (waiting got) = send_waiting w

    -- `dst[4 : length+4]` panics beyond the capacity.
    unfoldable pub read_data : Option Slice → ℕ → W → List Arrival → Sent E W
    unfolding after_data
    read_data none size w input = send_panic
    read_data (some dst) size w input =
        if ltb (length dst.mem) (size + 4)
        then send_panic
        else after_data dst size w (read_full_mysql_packet size input)

    -- `dst[2]` panics beyond the slice's length. `spare` is what `append` chooses to add.
    unfoldable pub after_header : ℕ → Slice → W → FullRead → Sent E W
    unfolding read_data packet_length header_error
    after_header spare dst w (read_done got input) =
        let dst' = store_at 0 got dst in
        if ltb dst'.len 3
        then send_panic
        else (let size = packet_length dst' in
            read_data (resize_slice spare dst' (size + 4)) size w input)
    after_header spare dst w (read_error e got input) =
        send_error (header_error e) (record (store_at 0 got dst) { len = 0 }) w input
    after_header spare dst w (waiting got) = send_waiting w

    unfoldable pub read_header : ℕ → Option Slice → W → List Arrival → Sent E W
    unfolding after_header
    read_header spare none w input = send_panic
    read_header spare (some dst) w input =
        after_header spare dst w (read_full_mysql_packet dst.len input)

    unfoldable pub write_buffer_and_send : ℕ → Slice → W → List Arrival → Sent E W
    unfolding read_header
    write_buffer_and_send spare dst w input = read_header spare (resize_slice spare dst 4) w input
