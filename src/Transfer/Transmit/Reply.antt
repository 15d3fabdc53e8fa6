-- ===== src/Transfer/Transmit/Reply.antt =====
-- How the transmitter reads what comes back, and the round in which the acknowledgement comes.
use rted_tftp.Base.{
  ℕ, ◌+◌, ◌%◌, ◌<◌, ◌≤◌, ◌≡◌, refl, Bool, true, false, not, List, [], ◌∷◌, ◌++◌, length, take, drop,
  ◌/◌, Bytes, if◌then◌else◌, ◌==◌, arith, ==_iff,
}
use rted_tftp.Protocol.{sizeof_packet, tftp_error}
use rted_tftp.Packet.{Endian, little, big, ntohs, load16, ack_packet, overlay, raw_opcode}
use rted_tftp.Packet.Layout.{ntohs-load16, ack_packet_lem, overlay_header, length-overlay}
use rted_tftp.Net.{Address, Host, Arrival, packet, deliver}
use rted_tftp.Net.Quiet.{IsQuiet, check_sigterm-IsQuiet, sendto-IsQuiet, recvfrom_packet}
use rted_tftp.Transfer.{Session}
use rted_tftp.Transfer.Transmit.{
  acknowledged, is_error_response, is_expected_ack, read_response, store_response, on_arrival,
  await_response, count_sent, send_block, attempt,
}
use rted_tftp.Transfer.Transmit.Total.{SameBlock}

-- `ntohs` of a comparison: the test is on the opcode field as it stands in memory.
pub is_error_response-raw :
    (h : Host) (m : Bytes) → is_error_response h m ≡ (raw_opcode h.endian m == tftp_error)
unfolding is_error_response ntohs
is_error_response-raw h m = go h.endian (raw_opcode h.endian m == tftp_error)
  where
    go : (e : Endian) (b : Bool) → not (ntohs e (if b then 1 else 0) == 0) ≡ b
    go little true = refl
    go little false = refl
    go big true = refl
    go big false = refl

-- The expected acknowledgement, whatever stood in the buffer before.
pub ack_no_error :
    (h : Host) (m : Bytes) (n : ℕ)
    → 4 ≤ length m
    → is_error_response h (overlay m (ack_packet h.endian n)) ≡ false
unfolding load16
ack_no_error h m n len =
    rw
      (
        is_error_response-raw,
        ack_packet_lem h.endian n,
        overlay_header m 0 4 (n / 256 % 256) (n % 256) [] len,
      )
      (go h.endian)
  where
    go :
        (e : Endian)
        → (raw_opcode e (0 ∷ 4 ∷ n / 256 % 256 ∷ n % 256 ∷ overlay (drop 4 m) []) == tftp_error)
          ≡ false
    go little = refl
    go big = refl

pub ack_expected :
    (h : Host) (m : Bytes) (n : ℕ)
    → 4 ≤ length m
    → n < 65536
    → is_expected_ack h (overlay m (ack_packet h.endian n)) n ≡ true
unfolding is_expected_ack
ack_expected h m n len small =
    rw
      (
        ack_packet_lem h.endian n,
        overlay_header m 0 4 (n / 256 % 256) (n % 256) [] len,
        ntohs-load16 h.endian _ 0,
        ntohs-load16 h.endian _ 2,
      )
      ((==_iff _ n).1 (omega arith))

-- What a round leaves in which the acknowledgement of the block comes at once.
pub record Acked (s : Session) (from : Address) (rest : List Arrival) (t : Session) : Type 0 where
  pub same_block : SameBlock s.block_size s.tx t
  pub counted : t.tx.bytes_sent ≡ sizeof_packet + s.tx.latest_file_bytes_read
  pub response_buffer : length t.tx.response_packet ≡ length s.tx.response_packet
  pub quiet : IsQuiet t.net
  pub inbox : t.net.inbox ≡ rest
  pub peer : t.net.peer_address ≡ from
  pub sent :
      t.net.sent
      ≡ s.net.sent
        ++ record {
          to = s.net.peer_address;
          bytes = take (sizeof_packet + s.tx.latest_file_bytes_read) s.tx.data_packet;
        }
          ∷ []

module _ (h : Host) (s : Session) (from : Address) (rest : List Arrival) where
  outgoing : Bytes
  outgoing = take (sizeof_packet + s.tx.latest_file_bytes_read) s.tx.data_packet

  acked : Session
  acked = record s {
    tx = (store_response (count_sent s) (ack_packet h.endian s.tx.current_block_number)).tx;
    net = record (deliver s.net outgoing) { inbox = rest; peer_address = from };
  }

  pub acked_attempt :
      IsQuiet s.net
      → s.net.inbox ≡ packet from (ack_packet h.endian s.tx.current_block_number) ∷ rest
      → s.tx.current_block_number < 65536
      → 4 ≤ length s.tx.response_packet
      → (t : Session) × (attempt h s ≡ acknowledged t) × Acked s from rest t
  unfolding attempt send_block await_response on_arrival read_response acked outgoing count_sent
      store_response deliver
  acked_attempt q inbox small room = (
    acked,
    rw (
      check_sigterm-IsQuiet h s.net q,
      sendto-IsQuiet s.net outgoing q,
      recvfrom_packet (deliver s.net outgoing) from _ rest inbox,
      ack_no_error h s.tx.response_packet s.tx.current_block_number room,
      ack_expected h s.tx.response_packet s.tx.current_block_number room small,
    ),
    record {
      same_block = ground arith;
      counted = refl;
      response_buffer = length-overlay s.tx.response_packet _;
      quiet = record { no_signal = q.no_signal; no_loss = q.no_loss };
      inbox = refl;
      peer = refl;
      sent = refl;
    },
  )
