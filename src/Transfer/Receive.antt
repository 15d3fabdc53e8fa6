-- ===== src/Transfer/Receive.antt =====
-- tftp_common.c, `tftp_receive_file`: the receiving side of a transfer. One call of `receive_once` is
-- one call of `recvfrom` with all that follows it; the two loops together take fuel.
pub mod Total
pub mod Blocks
pub mod Safety
pub mod Lossless
pub mod Ending
use rted_tftp.Base.{
  ℕ, zero, suc, ◌+◌, ◌-◌, ◌%◌, ◌^◌, Bool, true, false, not, ◌&&◌, ◌||◌, [], ◌∷◌, ◌++◌, Option, none,
  some, length, take, drop, min, Bytes, codes, if◌then◌else◌, ◌==◌, ltb,
}
use rted_tftp.Protocol.{sizeof_packet, max_retry_count, tftp_data, tftp_error, tftp_error_undefined}
use rted_tftp.Packet.{ntohs, raw_opcode, raw_block, overlay}
use rted_tftp.Net.{
  Host, Net, Arrival, packet, timed_out, failed, recvfrom, tftp_send_ack, tftp_send_error,
  check_sigterm,
}
use rted_tftp.Transfer.{FileHandle, TransferData, Session}

-- What one `recvfrom` leads to: a block written and acknowledged, another round of the inner loop,
-- `return false`, or a read past the end of the packet buffer.
pub data Received : Type 0 where
  got_block : Session → Received
  waiting : Session → Received
  returned : Session → Received
  overread : Session → Received

abbrev fail_with : Host → Bytes → Session → Received
fail_with h message s =
    returned (record s { net = tftp_send_error h tftp_error_undefined message none s.net })

-- `fwrite`: as much as the disk takes; the count is what it returns.
unfoldable pub fwrite : FileHandle → Bytes → FileHandle × ℕ
fwrite f bytes = (
  record f { written = f.written ++ take f.room bytes; room = f.room - length bytes },
  min f.room (length bytes),
)

-- `bytes_received - sizeof(Packet_t)`, in 64 bits without sign.
unfoldable pub payload_size : ℕ → ℕ
payload_size bytes_received = (bytes_received + 2 ^ 64 - sizeof_packet) % 2 ^ 64

unfoldable pub is_expected_data : Host → Bytes → ℕ → Bool
is_expected_data h m block_number =
    ntohs h.endian (raw_opcode h.endian m) == tftp_data
    && ntohs h.endian (raw_block h.endian m) == block_number

-- The block has been written: it is acknowledged, and the next one is awaited.
unfoldable pub acknowledge_block : Host → Session → FileHandle → Session
acknowledge_block h s file = record s {
  tx = record s.tx {
    file = file;
    resend_counter = 0;
    current_block_number = (s.tx.current_block_number + 1) % 65536;
  };
  net = (tftp_send_ack h s.tx.current_block_number s.net).1;
}

unfoldable pub write_block : Host → Session → Received
write_block h s =
    let size = payload_size s.tx.bytes_received in
    let cells = drop sizeof_packet s.tx.data_packet in
    let (file, bytes_written) = fwrite s.tx.file (take size cells) in
    if ltb (length cells) size
    then overread s
    else if bytes_written == 0
    then fail_with h (codes "Writing to file failed")
        (record s { tx = record s.tx { file = file } })
    else got_block (acknowledge_block h s file)

-- Whether a string that starts with these cells ends within them.
unfoldable pub is_terminated : Bytes → Bool
is_terminated [] = false
is_terminated (c ∷ cells) = let rest = is_terminated cells in c % 256 == 0 || rest

-- The message of an ERROR packet is printed up to its terminator, past the buffer where it has none.
unfoldable pub print_error : Session → Received
print_error s =
    if is_terminated (drop sizeof_packet s.tx.data_packet) then returned s else overread s

-- A datagram of at least one byte is in the buffer.
unfoldable pub read_packet : Host → Session → Received
read_packet h s =
    if ntohs h.endian (raw_opcode h.endian s.tx.data_packet) == tftp_error
    then print_error s
    else if is_expected_data h s.tx.data_packet s.tx.current_block_number
    then write_block h s
    else waiting s

-- Nothing was received.
unfoldable pub count_failure : Host → Session → Received
count_failure h s =
    if ltb s.tx.resend_counter max_retry_count
    then waiting
        (record s { tx = record s.tx { resend_counter = (s.tx.resend_counter + 1) % 256 } })
    else fail_with h (codes "Timed out waiting for data packet") s

-- `recvfrom` into the packet buffer.
unfoldable pub store_packet : Session → Bytes → Session
store_packet s bytes = record s {
  tx = record s.tx {
    data_packet = overlay s.tx.data_packet bytes;
    bytes_received = min (length bytes) s.tx.data_packet_max_size;
  };
}

unfoldable pub on_arrival : Host → Session → Arrival → Received
on_arrival h s (packet from []) = count_failure h s
on_arrival h s (packet from (b ∷ bytes)) = read_packet h (store_packet s (b ∷ bytes))
on_arrival h s timed_out = count_failure h s
on_arrival h s failed = count_failure h s

unfoldable pub receive_once : Host → Session → Received
receive_once h s = let (arrival, n) = recvfrom s.net in on_arrival h (record s { net = n }) arrival

pub data Round : Type 0 where
  again : Session → Round
  ended : Bool → Session → Round
  past_buffer : Session → Round

-- The end of the inner loop, the test of the outer one, and the poll at the start of its body.
unfoldable pub end_of_round : Host → Received → Round
end_of_round h (got_block s) =
    let (terminate, n) = check_sigterm h s.net in
    let s' = record s { net = n } in
    if s.tx.bytes_received == s.tx.data_packet_max_size
    then (if terminate then ended false s' else again s')
    else ended true s
end_of_round h (waiting s) = again s
end_of_round h (returned s) = ended false s
end_of_round h (overread s) = past_buffer s

pub data Outcome : Type 0 where
  finished : Bool → Session → Outcome
  overran : Session → Outcome
  spent : Outcome

unfoldable pub receive_loop : ℕ → Host → Session → Outcome
receive_loop zero h s = spent
receive_loop (suc fuel) h s = elim (end_of_round h (receive_once h s)) [
  | again t ↦ receive_loop fuel h t
  | ended outcome t ↦ finished outcome t
  | past_buffer t ↦ overran t
]

unfoldable pub begin_reception : Session → Session
begin_reception s = record s { tx = record s.tx { current_block_number = 1 } }

-- The two polls before the first `recvfrom`, and the loops.
unfoldable pub tftp_receive_file : Host → Session → Outcome
tftp_receive_file h s =
    let (terminate, n) = check_sigterm h s.net in
    let s' = record s { net = n } in
    let (terminate', n') = check_sigterm h n in
    let s'' = begin_reception (record s { net = n' }) in
    if terminate
    then finished false s'
    else if terminate'
    then finished false s''
    else receive_loop (length s.net.inbox + max_retry_count + 1) h s''
