-- ===== src/Transfer/Receive/Blocks/Stages.antt =====
-- What holds of a reception before a block of the file is accepted, and after.
use rted_tftp.Base.{
  ℕ, ◌+◌, ◌*◌, ◌/◌, ◌%◌, ◌<◌, ◌≤◌, ◌≡◌, refl, [], ◌∷◌, length, take, drop, Bytes, arith,
  length-drop,
}
use rted_tftp.Protocol.{sizeof_packet, tftp_data}
use rted_tftp.Packet.{Endian, ntohs, raw_opcode, raw_block, data_packet, overlay}
use rted_tftp.Packet.Layout.{ntohs-load16, data_packet_lem, overlay_header, take-overlay}
use rted_tftp.Net.{Address, Host, Net, packet}
use rted_tftp.Transfer.{Session, IsReady}
use rted_tftp.Transfer.Blocks.{chunk, number_of, block_count}
use rted_tftp.Transfer.Receive.{begin_reception, read_packet, store_packet, on_arrival}

-- Before block `i` of the file is accepted.
pub record Receiving (bs : ℕ) (file : Bytes) (i : ℕ) (s : Session) : Type 0 where
  pub max_size : s.tx.data_packet_max_size ≡ sizeof_packet + bs
  pub number : s.tx.current_block_number ≡ number_of i
  pub written : s.tx.file.written ≡ take (i * bs) file
  pub room : length file ≤ i * bs + s.tx.file.room
  pub buffer : length s.tx.data_packet ≡ sizeof_packet + bs
  pub in_file : i < block_count bs file

-- After block `i` has been written.
pub record Taken (bs : ℕ) (file : Bytes) (i : ℕ) (s : Session) : Type 0 where
  pub max_size : s.tx.data_packet_max_size ≡ sizeof_packet + bs
  pub number : s.tx.current_block_number ≡ number_of (i + 1)
  pub written : s.tx.file.written ≡ take ((i + 1) * bs) file
  pub room : length file ≤ (i + 1) * bs + s.tx.file.room
  pub buffer : length s.tx.data_packet ≡ sizeof_packet + bs
  pub received : s.tx.bytes_received ≡ sizeof_packet + length (chunk bs file i)

pub net-Receiving :
    (bs : ℕ) (file : Bytes) (i : ℕ) (s : Session) (n : Net)
    → Receiving bs file i s
    → Receiving bs file i (record s { net = n })
net-Receiving bs file i s n v = record {
  max_size = v.max_size;
  number = v.number;
  written = v.written;
  room = v.room;
  buffer = v.buffer;
  in_file = v.in_file;
}

pub begin-Receiving :
    (bs : ℕ) (file : Bytes) (s : Session) (n : Net)
    → IsReady bs s
    → s.tx.file.written ≡ []
    → length file ≤ s.tx.file.room
    → Receiving bs file 0 (begin_reception (record s { net = n }))
unfolding begin_reception
begin-Receiving bs file s n r fresh room = record {
  max_size = r.max_size;
  number = refl;
  written = let none_yet : 0 * bs ≡ 0 = omega arith in rw none_yet fresh;
  room = omega arith;
  buffer = r.data_buffer;
  in_file = omega arith;
}

pub arrival_stored :
    (h : Host) (s : Session) (from : Address) (b : Bytes)
    → 0 < length b
    → on_arrival h s (packet from b) ≡ read_packet h (store_packet s b)
unfolding on_arrival
arrival_stored h s from [] len = absurd (omega arith)
arrival_stored h s from (c ∷ b) len = refl

pub length-data_packet :
    (e : Endian) (n : ℕ) (payload : Bytes)
    → length (data_packet e n payload) ≡ sizeof_packet + length payload
length-data_packet e n payload = rw data_packet_lem (omega arith)

-- The header fields and the payload cells of a DATA packet that has come into the buffer.
module _ (e : Endian) (m payload : Bytes) (bs n : ℕ) (room : length m ≡ sizeof_packet + bs) where
  stored :
      overlay m (data_packet e n payload)
      ≡ 0 ∷ 3 ∷ n / 256 % 256 ∷ n % 256 ∷ overlay (drop 4 m) payload
  stored =
      rw (data_packet_lem e n payload)
        (overlay_header m 0 3 (n / 256 % 256) (n % 256) payload (omega arith))

  pub stored_opcode : ntohs e (raw_opcode e (overlay m (data_packet e n payload))) ≡ tftp_data
  stored_opcode = rw (stored, ntohs-load16)

  pub stored_number : n < 65536 → ntohs e (raw_block e (overlay m (data_packet e n payload))) ≡ n
  stored_number h = rw (stored, ntohs-load16) (omega arith)

  pub stored_payload :
      length payload ≤ bs
      → take (length payload) (drop 4 (overlay m (data_packet e n payload))) ≡ payload
  stored_payload h = rw stored (take-overlay (drop 4 m) payload (omega (arith, length-drop 4 m)))
