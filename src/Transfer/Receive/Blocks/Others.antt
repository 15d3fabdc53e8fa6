-- ===== src/Transfer/Receive/Blocks/Others.antt =====
-- What a datagram that is not the next block does to a reception.
use rted_tftp.Base.{
  ℕ, ◌+◌, ◌<◌, ◌≤◌, ◌≡◌, ◌≢◌, refl, false, [], ◌∷◌, length, drop, Bytes, if◌then◌else◌, ◌==◌, arith,
  ◌∙◌,
}
use rted_tftp.Protocol.{sizeof_packet, tftp_data, tftp_error}
use rted_tftp.Packet.{Endian, little, big, load16, ntohs, raw_opcode, data_packet, overlay}
use rted_tftp.Packet.Layout.{overlay_header}
use rted_tftp.Net.{Address, Host, packet}
use rted_tftp.Transfer.{Session}
use rted_tftp.Transfer.Receive.{
  waiting, print_error, is_expected_data, read_packet, store_packet, on_arrival,
}
pub use rted_tftp.Transfer.Receive.Blocks.Stages.{
  arrival_stored, length-data_packet, stored_opcode, stored_number, Receiving, Taken, net-Receiving,
  begin-Receiving,
}

pub same_opcode :
    (e : Endian) (m b : Bytes)
    → 4 ≤ length m
    → 4 ≤ length b
    → raw_opcode e (overlay m b) ≡ raw_opcode e b
unfolding load16
same_opcode e m [] hm hb = absurd (omega arith)
same_opcode e m (w ∷ []) hm hb = absurd (omega arith)
same_opcode e m (w ∷ x ∷ []) hm hb = absurd (omega arith)
same_opcode e m (w ∷ x ∷ y ∷ []) hm hb = absurd (omega arith)
same_opcode e m (w ∷ x ∷ y ∷ z ∷ b) hm hb = rw (overlay_header m w x y z b hm) (go e)
  where
    go :
        (e : Endian)
        → load16 e (w ∷ x ∷ y ∷ z ∷ overlay (drop 4 m) b) 0 ≡ load16 e (w ∷ x ∷ y ∷ z ∷ b) 0
    go little = refl
    go big = refl

-- A datagram with a whole header that is no DATA packet is printed, if it is an error, or passed over.
pub other_packet :
    (h : Host) (s : Session) (from : Address) (b : Bytes)
    → 4 ≤ length s.tx.data_packet
    → 4 ≤ length b
    → ntohs h.endian (raw_opcode h.endian b) ≢ tftp_data
    → on_arrival h s (packet from b) ≡ (
        if ntohs h.endian (raw_opcode h.endian b) == tftp_error
        then print_error (store_packet s b)
        else waiting (store_packet s b))
other_packet h s from b room whole other =
    arrival_stored h s from b (omega arith)
    ∙ unfold read_packet store_packet is_expected_data in
      rw (same_opcode h.endian s.tx.data_packet b room whole, no_data)
  where
    no_data : (ntohs h.endian (raw_opcode h.endian b) == tftp_data) ≡ false
    no_data = ground (arith, other)

-- A block with another number is passed over.
pub other_block :
    (h : Host) (bs : ℕ) (s : Session) (from : Address) (n : ℕ) (payload : Bytes)
    → length s.tx.data_packet ≡ sizeof_packet + bs
    → n < 65536
    → n ≢ s.tx.current_block_number
    → let b = data_packet h.endian n payload in
      on_arrival h s (packet from b) ≡ waiting (store_packet s b)
other_block h bs s from n payload room small other =
    arrival_stored h s from (data_packet h.endian n payload)
      (omega (arith, length-data_packet h.endian n payload))
    ∙ unfold read_packet store_packet is_expected_data in
      rw (
        stored_opcode h.endian s.tx.data_packet payload bs n room,
        stored_number h.endian s.tx.data_packet payload bs n room small,
        wrong_number,
      )
  where
    wrong_number : (n == s.tx.current_block_number) ≡ false
    wrong_number = ground (arith, other)
