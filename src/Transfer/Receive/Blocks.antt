-- ===== src/Transfer/Receive/Blocks.antt =====
-- What one datagram does to a reception of a given file: the next block, and anything else.
pub mod Stages
pub mod Others
use rted_tftp.Base.{
  ℕ, ◌+◌, ◌*◌, ◌/◌, ◌%◌, ◌<◌, ◌≤◌, ◌≡◌, ◌≢◌, refl, true, false, [], ◌∷◌, ◌++◌, none, length, take,
  drop, min, Bytes, codes, if◌then◌else◌, ◌==◌, ltb, arith, ==_iff, ◌∙◌, sym, ap, ap₂, length-drop,
  take_all, nil_of_length, append-nil,
}
use rted_tftp.Protocol.{sizeof_packet, tftp_data, tftp_error, tftp_error_undefined}
use rted_tftp.Packet.{
  Endian, little, big, load16, ntohs, raw_opcode, raw_block, data_packet, overlay,
}
use rted_tftp.Packet.Layout.{
  ntohs-load16, data_packet_lem, overlay_header, length-overlay, take-overlay,
}
use rted_tftp.Net.{Address, Host, Net, packet, tftp_send_error}
use rted_tftp.Transfer.{Session, IsReady}
use rted_tftp.Transfer.Blocks.{chunk, number_of, block_packet, block_count, length-chunk, take-next}
use rted_tftp.Transfer.Receive.{
  got_block, waiting, returned, begin_reception, fwrite, payload_size, is_expected_data,
  acknowledge_block, write_block, read_packet, store_packet, on_arrival,
}
use rted_tftp.Transfer.Receive.Blocks.Stages.{
  arrival_stored, length-data_packet, stored_opcode, stored_number, stored_payload,
}
pub use rted_tftp.Transfer.Receive.Blocks.Stages.{Receiving, Taken, net-Receiving, begin-Receiving}
pub use rted_tftp.Transfer.Receive.Blocks.Others.{same_opcode, other_packet, other_block}

payload_size_lem : (k : ℕ) → k < 65536 → payload_size (sizeof_packet + k) ≡ k
unfolding payload_size
payload_size_lem k h = omega arith

module _ (h : Host) (bs : ℕ) (file : Bytes) (i : ℕ) (s : Session) (small : bs < 65536)
    (v : Receiving bs file i s) where
  abbrev pub incoming : Bytes
  incoming = block_packet h.endian bs file i

  chunk-le : length (chunk bs file i) ≤ bs
  chunk-le = omega (arith, length-chunk bs file i)

  number_small : number_of i < 65536
  number_small = omega arith

  received_is :
      min (length incoming) s.tx.data_packet_max_size ≡ sizeof_packet + length (chunk bs file i)
  received_is =
      omega
        (arith, length-data_packet h.endian (number_of i) (chunk bs file i), v.max_size, chunk-le)

  size_is : payload_size (store_packet s incoming).tx.bytes_received ≡ length (chunk bs file i)
  unfolding store_packet
  size_is = rw received_is (payload_size_lem (length (chunk bs file i)) (omega (arith, chunk-le)))

  -- The packet of the block is recognised, and its payload is what is to be written.
  payload_is :
      let s' = store_packet s incoming in
      take (payload_size s'.tx.bytes_received) (drop sizeof_packet s'.tx.data_packet)
      ≡ chunk bs file i
  payload_is = rw size_is (
      unfold store_packet in
      stored_payload h.endian s.tx.data_packet (chunk bs file i) bs (number_of i) v.buffer chunk-le)

  write_is :
      (from : Address)
      → on_arrival h s (packet from incoming) ≡ write_block h (store_packet s incoming)
  write_is from =
      arrival_stored h s from incoming
        (omega (arith, length-data_packet h.endian (number_of i) (chunk bs file i)))
      ∙ unfold store_packet read_packet is_expected_data in
        rw (
          stored_opcode h.endian s.tx.data_packet (chunk bs file i) bs (number_of i) v.buffer,
          stored_number h.endian s.tx.data_packet (chunk bs file i) bs (number_of i) v.buffer
              number_small,
          (==_iff (number_of i) s.tx.current_block_number).1 (sym v.number),
        )

  cells_left : length (drop sizeof_packet (store_packet s incoming).tx.data_packet) ≡ bs
  unfolding store_packet
  cells_left = omega (
    arith,
    length-drop sizeof_packet (overlay s.tx.data_packet incoming),
    length-overlay s.tx.data_packet incoming,
    v.buffer,
  )

  -- A block that is not empty is written and acknowledged.
  unfoldable pub taken : Session
  taken = acknowledge_block h (store_packet s incoming) (fwrite s.tx.file (chunk bs file i)).0

  fits : length (chunk bs file i) ≤ s.tx.file.room
  fits = omega (arith, length-chunk bs file i, v.room)

  write_some :
      0 < length (chunk bs file i) → write_block h (store_packet s incoming) ≡ got_block taken
  unfolding write_block taken
  write_some some_bytes =
      let no_overread : ltb bs (length (chunk bs file i)) ≡ false = ground (arith, chunk-le) in
      let counted : (min s.tx.file.room (length (chunk bs file i)) == 0) ≡ false =
        ground (arith, fits) in
      rw (payload_is, size_is, cells_left, no_overread) (unfold fwrite store_packet in rw counted)

  taken-Taken : Taken bs file i taken
  unfolding taken acknowledge_block fwrite store_packet
  taken-Taken = record {
    max_size = v.max_size;
    number = omega (arith, v.number);
    written =
        ap₂ (◌++◌) v.written (take_all s.tx.file.room (chunk bs file i) fits)
        ∙ sym (take-next bs file i);
    room = omega (arith, v.room, fits, length-chunk bs file i);
    buffer = length-overlay s.tx.data_packet incoming ∙ v.buffer;
    received = received_is;
  }

  -- A block that is not empty is written and acknowledged.
  pub take_block :
      (from : Address)
      → 0 < length (chunk bs file i)
      → (on_arrival h s (packet from incoming) ≡ got_block taken) × Taken bs file i taken
  take_block from some_bytes = (write_is from ∙ write_some some_bytes, taken-Taken)

  -- An empty one is refused, with nothing written: `fwrite` returns 0.
  unfoldable pub refused : Session
  refused = record s {
    tx = record (store_packet s incoming).tx { file = (fwrite s.tx.file (chunk bs file i)).0 };
    net = tftp_send_error h tftp_error_undefined (codes "Writing to file failed") none s.net;
  }

  pub refuse_empty :
      (from : Address)
      → length (chunk bs file i) ≡ 0
      → (on_arrival h s (packet from incoming) ≡ returned refused)
        × (refused.tx.file.written ≡ s.tx.file.written)
  unfolding write_block refused
  refuse_empty from empty =
      let no_overread : ltb bs (length (chunk bs file i)) ≡ false = ground (arith, chunk-le) in
      let counted : (min s.tx.file.room (length (chunk bs file i)) == 0) ≡ true = ground arith in
      (
        write_is from
            ∙ rw (payload_is, size_is, cells_left, no_overread)
                (unfold fwrite store_packet in rw counted),
        unfold fwrite in
            (ap (◌++◌ s.tx.file.written) (
                take_all s.tx.file.room (chunk bs file i) fits
                ∙ nil_of_length (chunk bs file i) empty)
              ∙ append-nil s.tx.file.written),
      )
