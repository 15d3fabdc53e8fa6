-- ===== src/Transfer/Await.antt =====
-- tftp_common.c, `tftp_await_acknowledgement`: up to five calls of `recvfrom` for an acknowledgement.
use rted_tftp.Base.{
  ℕ, zero, suc, Bool, true, false, List, [], ◌∷◌, ◌&&◌, Bytes, if◌then◌else◌, ◌==◌,
}
use rted_tftp.Protocol.{max_retry_count, tftp_ack, tftp_error}
use rted_tftp.Packet.{ntohs, raw_opcode, raw_block, overlay}
use rted_tftp.Net.{Host, Net, Arrival, packet, timed_out, failed, recvfrom}
pub mod Replies
pub mod Frame

-- What one call of `recvfrom` leads to: `return true`, `return false`, or another round with the
-- buffer as it is then.
pub data Verdict : Type 0 where
  accepted refused : Verdict
  ignored : Bytes → Verdict

unfoldable pub judge : Host → ℕ → Bytes → Verdict
judge h block_number incoming =
    let incoming_opcode = ntohs h.endian (raw_opcode h.endian incoming) in
    if incoming_opcode == tftp_ack && ntohs h.endian (raw_block h.endian incoming) == block_number
    then accepted
    else if incoming_opcode == tftp_error
    then refused
    else ignored incoming

unfoldable pub on_incoming : Host → ℕ → Bytes → Arrival → Verdict
on_incoming h block_number buffer (packet from []) = ignored buffer
on_incoming h block_number buffer (packet from (b ∷ bytes)) =
    judge h block_number (overlay buffer (b ∷ bytes))
on_incoming h block_number buffer timed_out = ignored buffer
on_incoming h block_number buffer failed = ignored buffer

-- The loop, by the rounds that are left.
unfoldable pub await_loop : ℕ → Host → ℕ → Bytes → Net → Bool × Net
await_loop zero h block_number buffer n = (false, n)
await_loop (suc rounds) h block_number buffer n =
    let (arrival, n') = recvfrom n in
    elim (on_incoming h block_number buffer arrival) [
      | accepted ↦ (true, n')
      | refused ↦ (false, n')
      | ignored buffer' ↦ await_loop rounds h block_number buffer' n'
    ]

-- `buffer` is the memory that `malloc` gives for the packet.
unfoldable pub tftp_await_acknowledgement : Host → ℕ → Bytes → Net → Bool × Net
tftp_await_acknowledgement h block_number buffer n =
    await_loop max_retry_count h block_number buffer n
