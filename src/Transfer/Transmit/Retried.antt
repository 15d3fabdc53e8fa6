-- ===== src/Transfer/Transmit/Retried.antt =====
-- A transmission whose blocks are acknowledged within the retry limit.
pub mod Replies
use rted_tftp.Base.{
  ℕ, zero, suc, ◌+◌, ◌<◌, ◌≤◌, ◌≡◌, refl, sym, ap, ap₂, ◌∙◌, true, false, List, [], ◌∷◌, ◌++◌, some,
  length, replicate, Bytes, arith, All, append-nil, append_assoc,
}
use rted_tftp.Protocol.{sizeof_packet, max_retry_count}
use rted_tftp.Packet.{Endian, ack_packet}
use rted_tftp.Net.{Address, Host, Arrival, packet}
use rted_tftp.Net.Quiet.{IsQuiet, check_sigterm-IsQuiet}
use rted_tftp.Transfer.{Session, IsReady}
use rted_tftp.Transfer.Blocks.{chunk, number_of, block_packet, block_count, quotient-le}
use rted_tftp.Transfer.Transmit.{
  left, resend_loop, load_block, read_failed, block_round, block_loop, begin_transmission,
  tftp_transmit_file,
}
use rted_tftp.Transfer.Transmit.Loading.{
  Loading, number_is, outgoing-load_block, bytes_read-load_block, left-Loading, begin-Loading,
}
use rted_tftp.Transfer.Transmit.Missed.{IsUnheard}
use rted_tftp.Transfer.Transmit.Rounds.{IsDue, next-IsDue, loop_round, loop_end}
use rted_tftp.Transfer.Transmit.Unheard.Resends.{log}
use rted_tftp.Transfer.Transmit.Retried.Replies.{Answered, resend_answered}

-- Before each acknowledgement stands what goes unheard, fewer arrivals than the retry limit.
abbrev pub answers : Endian → Address → ℕ → List (List Arrival) → List Arrival
answers e from i [] = []
answers e from i (gap ∷ gaps) =
    gap ++ packet from (ack_packet e (number_of i)) ∷ answers e from (i + 1) gaps

abbrev pub IsBrief : Endian → List Arrival → Type 0
IsBrief e gap = (length gap < max_retry_count) × All (IsUnheard e) gap

-- Every block once for its acknowledgement, and once for each arrival before it.
abbrev pub retried : Endian → ℕ → Bytes → ℕ → List (List Arrival) → List Bytes
retried e bs file i [] = []
retried e bs file i (gap ∷ gaps) =
    replicate (suc (length gap)) (block_packet e bs file i) ++ retried e bs file (i + 1) gaps

-- Before block `i` is sent, with `gaps` before the acknowledgements to come.
record Retrying (h : Host) (bs : ℕ) (file : Bytes) (from : Address) (rest : List Arrival) (i : ℕ)
    (gaps : List (List Arrival)) (s : Session) : Type 0 where
  loading : Loading bs file i s
  readable : s.tx.file.read_fails ≡ false
  response : 4 ≤ length s.tx.response_packet
  quiet : IsQuiet s.net
  inbox : s.net.inbox ≡ answers h.endian from i gaps ++ rest

module _ (h : Host) (bs : ℕ) (file : Bytes) (from : Address) (rest : List Arrival) where
  module _ (i : ℕ) (gap : List Arrival) (gaps : List (List Arrival)) (s : Session)
      (v : Retrying h bs file from rest i (gap ∷ gaps) s) (brief : IsBrief h.endian gap) where
    abbrev later : List Arrival
    later = answers h.endian from (i + 1) gaps ++ rest

    block_answered :
        (t : Session) × (resend_loop (max_retry_count + 1) h (load_block h s) ≡ left t)
        × Answered (suc (length gap)) (load_block h s) later t
    unfolding load_block
    block_answered =
        resend_answered gap (max_retry_count + 1) h (load_block h s) from later
          (omega (arith, brief.0)) (omega (arith, brief.0))
          (rw (number_is h bs file i s v.loading) (
            v.inbox
            ∙ append_assoc gap
                (packet from (ack_packet h.endian (number_of i))
                  ∷ answers h.endian from (i + 1) gaps)
                rest))
          (omega arith) v.response v.quiet brief.1

    round_left : block_round h s ≡ left block_answered.0
    unfolding block_round
    round_left =
        rw (check_sigterm-IsQuiet h s.net v.quiet, no_failure, block_round) block_answered.1
      where
        no_failure : read_failed (load_block h s) ≡ false
        no_failure = unfold read_failed load_block in ground (arith, v.readable)

    next-Retrying :
        (t : Session)
        → Answered (suc (length gap)) (load_block h s) later t
        → Retrying h bs file from rest (i + 1) gaps t
    unfolding load_block
    next-Retrying t x = record {
      loading = left-Loading h bs file i s v.loading t x.same_block;
      readable = rw x.same_block.file v.readable;
      response = rw x.response_buffer v.response;
      quiet = x.quiet;
      inbox = x.inbox;
    }

    answered_block :
        (t : Session) × (block_round h s ≡ left t)
        × Retrying h bs file from rest (i + 1) gaps t
        × (t.tx.bytes_sent ≡ sizeof_packet + length (chunk bs file i))
        × (log t ≡ log s ++ replicate (suc (length gap)) (block_packet h.endian bs file i))
    unfolding load_block
    answered_block =
        let (t, e, x) = block_answered in
        (
          t,
          round_left,
          next-Retrying t x,
          x.counted ∙ ap (λ n. sizeof_packet + n) (bytes_read-load_block h bs file i s v.loading),
          (x.sent
              ∙ ap (λ b. log s ++ replicate (suc (length gap)) b)
                  (outgoing-load_block h bs file i s v.loading)),
        )

  answered_blocks :
      (gaps : List (List Arrival)) (i fuel : ℕ) (s : Session)
      → 0 < bs
      → i + length gaps ≡ block_count bs file
      → length gaps < fuel
      → IsDue bs (length gaps) s
      → All (IsBrief h.endian) gaps
      → Retrying h bs file from rest i gaps s
      → (t : Session) × (block_loop fuel h s ≡ some (true, t))
        × (log t ≡ log s ++ retried h.endian bs file i gaps)
        × (t.net.inbox ≡ rest)
  answered_blocks gaps i zero s b n f due brief v = absurd (omega arith)
  answered_blocks [] i (suc fuel) s b n f due brief v = (
    s,
    loop_end h fuel s (λ e. omega (arith, v.loading.max_size)),
    sym (append-nil (log s)),
    v.inbox,
  )
  answered_blocks (gap ∷ gaps) i (suc fuel) s b n f due brief v =
      let (t, e, v', sent, one) = answered_block i gap gaps s v brief.0 in
      let (u, done, more, inbox) =
        answered_blocks gaps (i + 1) fuel t b (omega arith) (omega arith)
          (next-IsDue bs file i (length gaps) t b n sent) brief.1 v' in
      (
        u,
        loop_round h fuel s t (due ∙ sym v.loading.max_size) e ∙ done,
        more
            ∙ ap (λ l. l ++ retried h.endian bs file (i + 1) gaps) one
            ∙ append_assoc (log s) (replicate (suc (length gap)) (block_packet h.endian bs file i))
                _,
        inbox,
      )

-- The transmission succeeds, has sent each block once more than arrivals went unheard before its
-- acknowledgement, in the file's order, and leaves `rest` unread.
abbrev pub Retries : Host → ℕ → List (List Arrival) → List Arrival → Session → Type 0
Retries h bs gaps rest s =
    (t : Session) × (tftp_transmit_file h s ≡ some (true, t))
    × (log t ≡ log s ++ retried h.endian bs s.tx.file.unread 0 gaps)
    × (t.net.inbox ≡ rest)

-- If no signal arrives, every `sendto` succeeds, the file can be read, and each block's
-- acknowledgement comes after fewer than five datagrams that go unheard or failures of `recvfrom` with
-- ETIMEDOUT (not the EAGAIN of SO_RCVTIMEO), then `tftp_transmit_file` returns true, has sent each
-- block once for each of these and once more, block after block in the file's order, and leaves what
-- came later unread.
pub transmit_retried :
    (h : Host) (bs : ℕ) (from : Address) (gaps : List (List Arrival)) (rest : List Arrival)
    (s : Session)
    → 0 < bs
    → IsReady bs s
    → s.tx.file.read_fails ≡ false
    → IsQuiet s.net
    → length gaps ≡ block_count bs s.tx.file.unread
    → All (IsBrief h.endian) gaps
    → s.net.inbox ≡ answers h.endian from 0 gaps ++ rest
    → Retries h bs gaps rest s
unfolding tftp_transmit_file
transmit_retried h bs from gaps rest s b r ok q n brief inbox =
    let (t, done, sent, left_over) =
      answered_blocks h bs s.tx.file.unread from rest gaps 0 (length s.tx.file.unread + 2)
        (begin_transmission h s) b (omega (arith, n))
        (omega (arith, quotient-le (length s.tx.file.unread) bs b)) first brief start in
    (t, rw (check_sigterm-IsQuiet h s.net q) done, unfold begin_transmission in sent, left_over)
  where
    first : IsDue bs (length gaps) (begin_transmission h s)
    first = rw n (unfold begin_transmission in r.max_size)

    start : Retrying h bs s.tx.file.unread from rest 0 gaps (begin_transmission h s)
    start =
        unfold begin_transmission in
        record {
          loading = begin-Loading h bs s r;
          readable = ok;
          response = omega (arith, r.response_buffer);
          quiet = q;
          inbox = inbox;
        }
