-- ===== src/Packet.antt =====
-- tftp_common.h: the packet layout; tftp_common.c: the packets that
-- `tftp_send_ack` and `tftp_send_error` build. A packet in memory is a list of byte cells, and the
-- byte order of the host is a parameter, since the code reads and writes 16-bit fields in host order.
pub mod Layout
use rted_tftp.Base.{
  ℕ, zero, suc, ◌+◌, ◌*◌, ◌/◌, ◌%◌, Bool, List, [], ◌∷◌, ◌++◌, Option, none, some, length, get_or,
  take, drop, replicate, Bytes, codes, if◌then◌else◌, ◌==◌,
}
use rted_tftp.Protocol.{sizeof_packet, tftp_data, tftp_ack, tftp_error}

pub data Endian : Type 0 where
  little big : Endian

-- `htons` and `ntohs`: the identity on a big-endian host, a swap of the bytes on a little-endian one.
unfoldable pub htons : Endian → ℕ → ℕ
htons little x = x % 256 * 256 + x / 256 % 256
htons big x = x % 65536

unfoldable pub ntohs : Endian → ℕ → ℕ
ntohs little x = x % 256 * 256 + x / 256 % 256
ntohs big x = x % 65536

-- A 16-bit store and load in host order.
unfoldable pub store16 : Endian → ℕ → Bytes
store16 little x = x % 256 ∷ x / 256 % 256 ∷ []
store16 big x = x / 256 % 256 ∷ x % 256 ∷ []

unfoldable pub load16 : Endian → Bytes → ℕ → ℕ
load16 little m i = get_or m i 0 % 256 + get_or m (suc i) 0 % 256 * 256
load16 big m i = get_or m i 0 % 256 * 256 + get_or m (suc i) 0 % 256

-- `packet->opcode` and `packet->ack.block_number` (or `data.block_number`, `error.error_code`), raw.
abbrev pub raw_opcode : Endian → Bytes → ℕ
raw_opcode e m = load16 e m 0

abbrev pub raw_block : Endian → Bytes → ℕ
raw_block e m = load16 e m 2

-- A copy into a buffer at an offset; cells past the end of the buffer are not written.
unfoldable pub overlay : Bytes → Bytes → Bytes
overlay m [] = m
overlay [] (b ∷ bs) = []
overlay (c ∷ m) (b ∷ bs) = b ∷ overlay m bs

unfoldable pub poke : ℕ → Bytes → Bytes → Bytes
unfolding overlay
poke zero bs m = overlay m bs
poke (suc i) bs [] = []
poke (suc i) bs (c ∷ m) = c ∷ poke i bs m

-- `explicit_bzero` of a fresh buffer.
abbrev pub zeros : ℕ → Bytes
zeros n = replicate n 0

-- The packet of `tftp_send_ack`.
unfoldable pub ack_packet : Endian → ℕ → Bytes
ack_packet e block_number = store16 e (htons e tftp_ack) ++ store16 e (htons e block_number)

-- The first four bytes and the payload of the packet that `tftp_transmit_file` sends.
unfoldable pub data_packet : Endian → ℕ → Bytes → Bytes
data_packet e block_number payload =
    store16 e (htons e tftp_data) ++ store16 e (htons e block_number) ++ payload

unfoldable pub error_message_len : Bytes → Option Bytes → ℕ
error_message_len message none = length message
error_message_len message (some item) = length message + length item

-- The packet of `tftp_send_error`. Every call gives a message; the item may be NULL. `strcpy` and
-- `strcat` write the text with a terminator at the end of what stands there.
unfoldable pub error_packet : Endian → ℕ → Bytes → Option Bytes → Bytes
unfolding error_message_len
error_packet e error_code message error_item =
    let packet_size = sizeof_packet + error_message_len message error_item + 2 in
    let zeroed = zeros packet_size in
    let opcode_set = poke 0 (store16 e (htons e tftp_error)) zeroed in
    let code_set = poke 2 (store16 e (htons e error_code)) opcode_set in
    let copied = poke 4 (message ++ 0 ∷ []) code_set in
    elim error_item [
      | none ↦ copied
      | some item ↦ poke (4 + length message) (item ++ 0 ∷ []) copied
    ]
