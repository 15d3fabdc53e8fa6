-- ===== src/Transfer/Transmit/Buffer.antt =====
-- The packet buffer of the transmitter, and the DATA packet that is sent from it.
use rted_tftp.Base.{
  [], ℕ, suc, ◌+◌, ◌/◌, ◌%◌, ◌≤◌, ◌≡◌, refl, ◌∷◌, ◌++◌, length, take, Bytes, arith, ap, ◌∙◌,
}
use rted_tftp.Protocol.{sizeof_packet, tftp_data}
use rted_tftp.Packet.{Endian, htons, store16, data_packet, overlay, poke}
use rted_tftp.Packet.Layout.{
  network16, store16-htons, data_packet_lem, take-overlay, length-overlay,
}

-- The packet buffer: the DATA opcode, two more header bytes, and room for one block.
pub record HasOpcode (bs : ℕ) (m : Bytes) : Type 0 where
  pub high : ℕ
  pub low : ℕ
  pub tail : Bytes
  pub cells : m ≡ 0 ∷ 3 ∷ high ∷ low ∷ tail
  pub room : length tail ≡ bs

loaded_buffer :
    (e : Endian) (bs n : ℕ) (payload m : Bytes) (b : HasOpcode bs m)
    → poke 4 payload (poke 2 (store16 e (htons e n)) m)
      ≡ network16 tftp_data ++ network16 n ++ overlay b.tail payload
unfolding poke overlay
loaded_buffer e bs n payload m b = rw (b.cells, store16-htons) refl

pub loaded-HasOpcode :
    (e : Endian) (bs n : ℕ) (payload m : Bytes)
    → HasOpcode bs m
    → HasOpcode bs (poke 4 payload (poke 2 (store16 e (htons e n)) m))
loaded-HasOpcode e bs n payload m b = record {
  high = n / 256 % 256;
  low = n % 256;
  tail = overlay b.tail payload;
  cells = loaded_buffer e bs n payload m b;
  room = length-overlay b.tail payload ∙ b.room;
}

-- What is sent from the buffer is the DATA packet of the block.
pub loaded_packet :
    (e : Endian) (bs n : ℕ) (payload m : Bytes)
    → HasOpcode bs m
    → length payload ≤ bs
    → take (sizeof_packet + length payload) (poke 4 payload (poke 2 (store16 e (htons e n)) m))
      ≡ data_packet e n payload
loaded_packet e bs n payload m b len =
    let four : 4 + length payload ≡ suc (suc (suc (suc (length payload)))) = omega arith in
    rw (loaded_buffer e bs n payload m b, four, data_packet_lem e n payload)
      (ap (λ t. network16 tftp_data ++ network16 n ++ t)
        (take-overlay b.tail payload (omega (arith, b.room))))

-- The opcode is set before the first block.
pub opcode_set :
    (e : Endian) (bs : ℕ) (m : Bytes)
    → length m ≡ sizeof_packet + bs
    → HasOpcode bs (poke 0 (store16 e (htons e tftp_data)) m)
unfolding poke overlay
opcode_set e bs [] len = absurd (omega arith)
opcode_set e bs (x ∷ []) len = absurd (omega arith)
opcode_set e bs (x ∷ y ∷ []) len = absurd (omega arith)
opcode_set e bs (x ∷ y ∷ z ∷ []) len = absurd (omega arith)
opcode_set e bs (x ∷ y ∷ z ∷ w ∷ m) len = record {
  high = z;
  low = w;
  tail = m;
  cells = rw store16-htons;
  room = omega arith;
}
