-- ===== src/Transfer/Transmit/Unheard.antt =====
-- A transmission whose blocks are met by arrivals that go unheard, and by no acknowledgement.
pub mod Resends
use rted_tftp.Base.{
  ℕ, zero, suc, ◌+◌, ◌*◌, ◌<◌, ◌≤◌, ◌≡◌, refl, sym, ap, ap₂, ◌∙◌, ◌⊎◌, inl, inr, true, false, List,
  [], ◌∷◌, ◌++◌, some, length, take, drop, map, replicate, Bytes, ltb, arith, All, All-drop,
  append-nil, append_assoc, length-drop,
}
use rted_tftp.Protocol.{sizeof_packet, max_retry_count}
use rted_tftp.Packet.{Endian}
use rted_tftp.Net.{Host, Arrival}
use rted_tftp.Net.Quiet.{IsQuiet, check_sigterm-IsQuiet}
use rted_tftp.Transfer.{Session, IsReady}
use rted_tftp.Transfer.Blocks.{chunk, block_packet, block_count, quotient-le}
use rted_tftp.Transfer.Transmit.{
  retry, attempt, left, resend_loop, load_block, read_failed, block_round, block_loop,
  begin_transmission, tftp_transmit_file,
}
use rted_tftp.Transfer.Transmit.Total.{SameBlock}
use rted_tftp.Transfer.Transmit.Sent.{outgoing}
use rted_tftp.Transfer.Transmit.Loading.{
  Loading, outgoing-load_block, bytes_read-load_block, left-Loading, begin-Loading,
}
use rted_tftp.Transfer.Transmit.Missed.{IsUnheard, Missed, unheard-Missed}
use rted_tftp.Transfer.Transmit.Rounds.{IsDue, next-IsDue, loop_round, loop_end}
use rted_tftp.Transfer.Transmit.Unheard.Resends.{Exhausted, resend_unheard, log}

-- Before block `i` is sent, with nothing to come that is an answer.
record Deaf (h : Host) (bs : ℕ) (file : Bytes) (i k : ℕ) (s : Session) : Type 0 where
  loading : Loading bs file i s
  readable : s.tx.file.read_fails ≡ false
  response : 4 ≤ length s.tx.response_packet
  quiet : IsQuiet s.net
  unheard : All (IsUnheard h.endian) s.net.inbox
  enough : max_retry_count * k ≤ length s.net.inbox

-- Every block as often as it is sent.
abbrev pub resent : Endian → ℕ → Bytes → ℕ → ℕ → List Bytes
resent e bs file i zero = []
resent e bs file i (suc k) =
    replicate max_retry_count (block_packet e bs file i) ++ resent e bs file (i + 1) k

module _ (h : Host) (bs : ℕ) (file : Bytes) where
  give_up :
      (i k : ℕ) (s : Session)
      → Deaf h bs file i (suc k) s
      → (t : Session) × (block_round h s ≡ left t)
        × Deaf h bs file (i + 1) k t
        × (t.tx.bytes_sent ≡ sizeof_packet + length (chunk bs file i))
        × (log t ≡ log s ++ replicate max_retry_count (block_packet h.endian bs file i))
  unfolding block_round load_block
  give_up i k s d =
      let loaded = load_block h s in
      let (t, end, x) =
        resend_unheard max_retry_count (max_retry_count + 1) h loaded s.net.inbox counter
          (omega arith) (d.response) (d.quiet) (refl) (omega (arith, d.enough)) d.unheard in
      (
        t,
        rw (check_sigterm-IsQuiet h s.net d.quiet, no_failure, block_round) end,
        after t x,
        counted t x ∙ ap (λ n. sizeof_packet + n) (bytes_read-load_block h bs file i s d.loading),
        (x.sent
            ∙ ap (λ b. log s ++ replicate max_retry_count b)
                (outgoing-load_block h bs file i s d.loading)),
      )
    where
      no_failure : read_failed (load_block h s) ≡ false
      no_failure = unfold read_failed in ground (arith, d.readable)

      counter : (load_block h s).tx.resend_counter + max_retry_count ≡ max_retry_count
      counter = refl

      counted :
          (t : Session)
          → Exhausted max_retry_count (load_block h s) t
          → t.tx.bytes_sent ≡ sizeof_packet + (load_block h s).tx.latest_file_bytes_read
      counted t x = elim x.counted [ inl e ↦ e | inr e ↦ absurd (omega (arith, e.0)) ]

      after :
          (t : Session) → Exhausted max_retry_count (load_block h s) t → Deaf h bs file (i + 1) k t
      after t x = record {
        loading = left-Loading h bs file i s d.loading t x.same_block;
        readable = rw x.same_block.file d.readable;
        response = omega (arith, x.response_buffer, d.response);
        quiet = x.quiet;
        unheard = rw x.inbox (All-drop (IsUnheard h.endian) max_retry_count _ (d.unheard));
        enough =
            omega (arith, d.enough, ap length x.inbox, length-drop max_retry_count s.net.inbox);
      }

  give_up_all :
      (k i fuel : ℕ) (s : Session)
      → 0 < bs
      → i + k ≡ block_count bs file
      → k < fuel
      → IsDue bs k s
      → Deaf h bs file i k s
      → (t : Session) × (block_loop fuel h s ≡ some (true, t))
        × (log t ≡ log s ++ resent h.endian bs file i k)
  give_up_all k i zero s b n f due d = absurd (omega arith)
  give_up_all zero i (suc fuel) s b n f due d =
      (s, loop_end h fuel s (λ e. omega (arith, d.loading.max_size)), sym (append-nil (log s)))
  give_up_all (suc k) i (suc fuel) s b n f due d =
      let (t, e, d', sent, one) = give_up i k s d in
      let (u, done, more) =
        give_up_all k (i + 1) fuel t b (omega arith) (omega arith)
          (next-IsDue bs file i k t b n sent) d' in
      (
        u,
        loop_round h fuel s t (due ∙ sym d.loading.max_size) e ∙ done,
        more
            ∙ ap (λ l. l ++ resent h.endian bs file (i + 1) k) one
            ∙ append_assoc (log s) (replicate max_retry_count (block_packet h.endian bs file i)) _,
      )

-- The transmission reports success, and each block was sent five times.
abbrev pub ReportsSuccess : Host → ℕ → Session → Type 0
ReportsSuccess h bs s =
    let file = s.tx.file.unread in
    (t : Session) × (tftp_transmit_file h s ≡ some (true, t))
    × (log t ≡ log s ++ resent h.endian bs file 0 (block_count bs file))

-- With no signal, no failing `sendto` and a readable file: if five times as many arrivals come as the
-- file has blocks, and each one is a datagram that is no acknowledgement and no error that is heard, or
-- a failure of `recvfrom` with ETIMEDOUT (not the EAGAIN of SO_RCVTIMEO), then `tftp_transmit_file`
-- returns true all the same: each block is sent five times and given up.
pub transmit_unheard :
    (h : Host) (bs : ℕ) (s : Session)
    → 0 < bs
    → IsReady bs s
    → s.tx.file.read_fails ≡ false
    → IsQuiet s.net
    → All (IsUnheard h.endian) s.net.inbox
    → max_retry_count * block_count bs s.tx.file.unread ≤ length s.net.inbox
    → ReportsSuccess h bs s
unfolding tftp_transmit_file
transmit_unheard h bs s b r ok q u enough =
    let n = block_count bs s.tx.file.unread in
    let (t, done, sent) =
      give_up_all h bs s.tx.file.unread n 0 (length s.tx.file.unread + 2) (begin_transmission h s) b
        (omega arith) (omega (arith, quotient-le (length s.tx.file.unread) bs b))
        (unfold begin_transmission in r.max_size) start in
    (t, rw (check_sigterm-IsQuiet h s.net q) done, unfold begin_transmission in sent)
  where
    start : Deaf h bs s.tx.file.unread 0 (block_count bs s.tx.file.unread) (begin_transmission h s)
    start =
        unfold begin_transmission in
        record {
          loading = begin-Loading h bs s r;
          readable = ok;
          response = omega (arith, r.response_buffer);
          quiet = q;
          unheard = u;
          enough = enough;
        }
