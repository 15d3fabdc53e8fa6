-- ===== src/Transfer/Transmit/Loading.antt =====
-- The transmitter between two blocks, whatever the network does: where it stands in the file.
use rted_tftp.Base.{
  ℕ, ◌+◌, ◌*◌, ◌%◌, ◌≡◌, refl, ap, ap₂, ◌∙◌, length, take, drop, Bytes, arith, length-take,
}
use rted_tftp.Protocol.{sizeof_packet}
use rted_tftp.Packet.{data_packet}
use rted_tftp.Net.{Host}
use rted_tftp.Transfer.{Session, IsReady}
use rted_tftp.Transfer.Blocks.{chunk, number_of, block_packet, drop-next}
use rted_tftp.Transfer.Transmit.{load_block, begin_transmission}
use rted_tftp.Transfer.Transmit.Total.{SameBlock}
use rted_tftp.Transfer.Transmit.Buffer.{HasOpcode, loaded-HasOpcode, loaded_packet, opcode_set}
use rted_tftp.Transfer.Transmit.Sent.{outgoing}

-- Blocks 0, ..., i - 1 have been loaded.
pub record Loading (bs : ℕ) (file : Bytes) (i : ℕ) (s : Session) : Type 0 where
  pub size : s.block_size ≡ bs
  pub max_size : s.tx.data_packet_max_size ≡ sizeof_packet + bs
  pub number : s.tx.current_block_number ≡ i % 65536
  pub unread : s.tx.file.unread ≡ drop (i * bs) file
  pub buffer : HasOpcode bs s.tx.data_packet

module _ (h : Host) (bs : ℕ) (file : Bytes) (i : ℕ) (s : Session) (v : Loading bs file i s) where
  pub payload_is : take s.block_size s.tx.file.unread ≡ chunk bs file i
  payload_is = rw (v.size, v.unread)

  pub number_is : (s.tx.current_block_number + 1) % 65536 ≡ number_of i
  number_is = omega (arith, v.number)

  -- The next block is in the buffer, with its number.
  pub outgoing-load_block : outgoing (load_block h s).tx ≡ block_packet h.endian bs file i
  unfolding load_block
  outgoing-load_block =
      loaded_packet h.endian bs _ (take s.block_size s.tx.file.unread) s.tx.data_packet v.buffer
        (omega (arith, length-take s.block_size s.tx.file.unread, v.size))
      ∙ ap₂ (data_packet h.endian) number_is payload_is

  pub bytes_read-load_block : (load_block h s).tx.latest_file_bytes_read ≡ length (chunk bs file i)
  unfolding load_block
  bytes_read-load_block = ap length payload_is

  pub left-Loading :
      (t : Session) → SameBlock s.block_size (load_block h s).tx t → Loading bs file (i + 1) t
  unfolding load_block
  left-Loading t b = record {
    size = b.same_size ∙ v.size;
    max_size = b.max_size ∙ v.max_size;
    number = b.number ∙ number_is;
    unread = rw (b.file, v.size, v.unread) (drop-next bs file i);
    buffer = rw b.packet_buffer (loaded-HasOpcode h.endian bs _ _ s.tx.data_packet v.buffer);
  }

pub begin-Loading :
    (h : Host) (bs : ℕ) (s : Session)
    → IsReady bs s
    → Loading bs s.tx.file.unread 0 (begin_transmission h s)
unfolding begin_transmission
begin-Loading h bs s r = record {
  size = r.size;
  max_size = r.max_size;
  number = r.number;
  unread = let none_yet : 0 * bs ≡ 0 = omega arith in rw none_yet refl;
  buffer = opcode_set h.endian bs s.tx.data_packet r.data_buffer;
}
