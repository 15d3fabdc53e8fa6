-- ===== src/Transfer/Transmit.antt =====
-- tftp_common.c, `tftp_transmit_file`: the sending side of a transfer. The two loops take fuel, which
-- `transmit_total` shows to be enough.
pub mod Total
pub mod Reply
pub mod Rounds
pub mod Retried
pub mod Buffer
pub mod Sent
pub mod Loading
pub mod Missed
pub mod Unheard
pub mod Genuine
pub mod Lossless
use rted_tftp.Base.{
  ℕ, zero, suc, ◌+◌, ◌%◌, Bool, true, false, not, ◌&&◌, [], ◌∷◌, Option, none, some, length, take,
  drop, min, Bytes, codes, if◌then◌else◌, ◌==◌, ltb,
}
use rted_tftp.Protocol.{
  sizeof_packet, max_retry_count, tftp_data, tftp_ack, tftp_error, tftp_error_undefined,
}
use rted_tftp.Packet.{htons, ntohs, store16, raw_opcode, raw_block, overlay, poke}
use rted_tftp.Net.{
  Host, Net, Arrival, packet, timed_out, failed, sendto, recvfrom, tftp_send_error, check_sigterm,
}
use rted_tftp.Transfer.{FileHandle, TransferData, Session}

-- One round of the inner loop ends by `break`, goes on to the next one, or returns false.
pub data Attempt : Type 0 where
  acknowledged : Session → Attempt
  retry : Session → Attempt
  returned : Session → Attempt

abbrev fail_with : Host → Bytes → Session → Attempt
fail_with h message s =
    returned (record s { net = tftp_send_error h tftp_error_undefined message none s.net })

-- The end of a round with no acknowledgement.
unfoldable pub end_round : Host → Session → Attempt
end_round h s =
    if ltb max_retry_count s.tx.resend_counter
    then fail_with h (codes "Timed out waiting for acknowledgement") s
    else retry (record s { tx = record s.tx { resend_counter = (s.tx.resend_counter + 1) % 256 } })

-- The test for an error packet is `ntohs(response->opcode == TFTP_ERROR)`.
unfoldable pub is_error_response : Host → Bytes → Bool
is_error_response h response =
    not (ntohs h.endian (if raw_opcode h.endian response == tftp_error then 1 else 0) == 0)

unfoldable pub is_expected_ack : Host → Bytes → ℕ → Bool
is_expected_ack h response block_number =
    ntohs h.endian (raw_opcode h.endian response) == tftp_ack
    && ntohs h.endian (raw_block h.endian response) == block_number

unfoldable pub read_response : Host → Session → Attempt
read_response h s =
    if is_error_response h s.tx.response_packet
    then returned s
    else if is_expected_ack h s.tx.response_packet s.tx.current_block_number
    then acknowledged s
    else end_round h s

-- `recvfrom` into the response buffer.
unfoldable pub store_response : Session → Bytes → Session
store_response s bytes = record s {
  tx = record s.tx {
    response_packet = overlay s.tx.response_packet bytes;
    bytes_received = min (length bytes) s.tx.response_packet_max_size;
  };
}

unfoldable pub on_arrival : Host → Session → Arrival → Attempt
on_arrival h s (packet from bytes) = read_response h (store_response s bytes)
on_arrival h s timed_out = end_round h s
on_arrival h s failed = fail_with h (codes "Socket rx error") s

unfoldable pub await_response : Host → Session → Attempt
await_response h s =
    let (arrival, n) = recvfrom s.net in on_arrival h (record s { net = n }) arrival

unfoldable pub count_sent : Session → Session
count_sent s = record s {
  tx = record s.tx {
    bytes_sent = sizeof_packet + s.tx.latest_file_bytes_read;
    total_file_bytes_transmitted =
        if s.tx.resend_counter == 0
        then s.tx.total_file_bytes_transmitted + s.tx.latest_file_bytes_read
        else s.tx.total_file_bytes_transmitted;
  };
}

unfoldable pub send_block : Host → Session → Attempt
send_block h s =
    let outgoing = take (sizeof_packet + s.tx.latest_file_bytes_read) s.tx.data_packet in
    let (went_out, n) = sendto s.net outgoing in
    let s' = record s { net = n } in
    if went_out then await_response h (count_sent s') else fail_with h (codes "Socket tx error") s'

-- The body of the inner loop.
unfoldable pub attempt : Host → Session → Attempt
attempt h s =
    let (terminate, n) = check_sigterm h s.net in
    let s' = record s { net = n } in if terminate then returned s' else send_block h s'

pub data Leave : Type 0 where
  left : Session → Leave
  stopped : Session → Leave
  spent : Leave

-- The inner loop: it is left by `break` or by its test, or the function returns false.
unfoldable pub resend_loop : ℕ → Host → Session → Leave
resend_loop zero h s = spent
resend_loop (suc fuel) h s = elim (ltb s.tx.resend_counter max_retry_count) [
  | false ↦ left s
  | true ↦ elim (attempt h s) [
    | acknowledged s' ↦ left s'
    | retry s' ↦ resend_loop fuel h s'
    | returned s' ↦ stopped s'
  ]
]

-- The next block number and `fread` of the next block, into the packet buffer.
unfoldable pub load_block : Host → Session → Session
load_block h s =
    let block_number = (s.tx.current_block_number + 1) % 65536 in
    let chunk = take s.block_size s.tx.file.unread in
    let numbered = poke 2 (store16 h.endian (htons h.endian block_number)) s.tx.data_packet in
    record s {
      tx = record s.tx {
        current_block_number = block_number;
        resend_counter = 0;
        data_packet = poke 4 chunk numbered;
        latest_file_bytes_read = length chunk;
        file = record s.tx.file { unread = drop s.block_size s.tx.file.unread };
      };
    }

-- Nothing was read, and not because of the end of the file.
unfoldable pub read_failed : Session → Bool
read_failed s = s.tx.latest_file_bytes_read == 0 && s.tx.file.read_fails

pub fail_at_file : Host → Session → Session
fail_at_file h s = record s {
  net = tftp_send_error h tftp_error_undefined (codes "File error") none s.net;
}

-- The body of the outer loop.
unfoldable pub block_round : Host → Session → Leave
block_round h s =
    let (terminate, n) = check_sigterm h s.net in
    let s' = record s { net = n } in
    let loaded = load_block h s' in
    if terminate
    then stopped s'
    else if read_failed loaded
    then stopped (fail_at_file h loaded)
    else resend_loop (max_retry_count + 1) h loaded

-- The outer loop.
unfoldable pub block_loop : ℕ → Host → Session → Option (Bool × Session)
block_loop zero h s = none
block_loop (suc fuel) h s = elim (s.tx.bytes_sent == s.tx.data_packet_max_size) [
  | false ↦ some (true, s)
  | true ↦ elim (block_round h s) [
    | left s' ↦ block_loop fuel h s'
    | stopped s' ↦ some (false, s')
    | spent ↦ none
  ]
]

-- Before the loop: the opcode is set, and `bytes_sent` lets the loop begin.
unfoldable pub begin_transmission : Host → Session → Session
begin_transmission h s = record s {
  tx = record s.tx {
    data_packet = poke 0 (store16 h.endian (htons h.endian tftp_data)) s.tx.data_packet;
    bytes_sent = s.tx.data_packet_max_size;
  };
}

unfoldable pub tftp_transmit_file : Host → Session → Option (Bool × Session)
tftp_transmit_file h s =
    let (terminate, n) = check_sigterm h s.net in
    let s' = begin_transmission h (record s { net = n }) in
    if terminate
    then some (false, record s { net = n })
    else block_loop (length s.tx.file.unread + 2) h s'
