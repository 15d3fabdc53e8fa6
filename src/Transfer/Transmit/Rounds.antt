-- ===== src/Transfer/Transmit/Rounds.antt =====
-- The rounds of the outer loop of `tftp_transmit_file`: when there is another one.
use rted_tftp.Base.{
  ℕ, zero, suc, ◌+◌, ◌<◌, ◌≡◌, ◌≢◌, true, false, some, length, Bytes, ◌==◌, arith, ==_iff,
}
use native.Mathlib.Nat.{mod-lt}
use rted_tftp.Protocol.{sizeof_packet}
use rted_tftp.Net.{Host}
use rted_tftp.Transfer.{Session}
use rted_tftp.Transfer.Blocks.{chunk, block_count, full_chunk, last_chunk}
use rted_tftp.Transfer.Transmit.{left, block_round, block_loop}

-- With blocks to go the last packet was full, and with none it was not.
abbrev pub IsDue : ℕ → ℕ → Session → Type 0
IsDue bs zero s = s.tx.bytes_sent < sizeof_packet + bs
IsDue bs (suc k) s = s.tx.bytes_sent ≡ sizeof_packet + bs

pub next-IsDue :
    (bs : ℕ) (file : Bytes) (i k : ℕ) (t : Session)
    → 0 < bs
    → i + suc k ≡ block_count bs file
    → t.tx.bytes_sent ≡ sizeof_packet + length (chunk bs file i)
    → IsDue bs k t
next-IsDue bs file i zero t b n sent =
    omega (arith, last_chunk bs file i b (omega arith), mod-lt (length file) b)
next-IsDue bs file i (suc k) t b n sent = omega (arith, full_chunk bs file i b (omega arith))

pub loop_round :
    (h : Host) (fuel : ℕ) (s t : Session)
    → s.tx.bytes_sent ≡ s.tx.data_packet_max_size
    → block_round h s ≡ left t
    → block_loop (suc fuel) h s ≡ block_loop fuel h t
unfolding block_loop
loop_round h fuel s t full e =
    rw ((==_iff s.tx.bytes_sent s.tx.data_packet_max_size).1 full, e, block_loop)

pub loop_end :
    (h : Host) (fuel : ℕ) (s : Session)
    → s.tx.bytes_sent ≢ s.tx.data_packet_max_size
    → block_loop (suc fuel) h s ≡ some (true, s)
unfolding block_loop
loop_end h fuel s short =
    let test : (s.tx.bytes_sent == s.tx.data_packet_max_size) ≡ false = ground arith in
    rw (test, block_loop)
