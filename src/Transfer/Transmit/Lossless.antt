-- ===== src/Transfer/Transmit/Lossless.antt =====
-- The transmitter on a quiet network whose peer acknowledges every block.
use rted_tftp.Base.{
  ℕ, zero, suc, ◌+◌, ◌<◌, ◌≤◌, ◌≡◌, refl, sym, true, false, List, [], ◌∷◌, ◌++◌, some, map, length,
  Bytes, ltb, arith, ◌∙◌, ap, ap₂, append_assoc, append-nil,
}
use rted_tftp.Protocol.{sizeof_packet, max_retry_count}
use rted_tftp.Net.{Address, Host, Arrival, packet, Datagram}
use rted_tftp.Net.Quiet.{IsQuiet, check_sigterm-IsQuiet}
use rted_tftp.Transfer.{Session, IsReady}
use rted_tftp.Transfer.Blocks.{
  chunk, block_packet, block_packets, ack_packets, block_count, quotient-le,
}
use rted_tftp.Transfer.Transmit.{
  acknowledged, attempt, left, resend_loop, load_block, read_failed, block_round, block_loop,
  begin_transmission, tftp_transmit_file,
}
use rted_tftp.Transfer.Transmit.Loading.{
  Loading, payload_is, number_is, outgoing-load_block, left-Loading, begin-Loading,
}
use rted_tftp.Transfer.Transmit.Rounds.{IsDue, next-IsDue, loop_round, loop_end}
use rted_tftp.Transfer.Transmit.Reply.{Acked, acked_attempt}

resend_first :
    (fuel : ℕ) (h : Host) (s t : Session)
    → s.tx.resend_counter ≡ 0
    → attempt h s ≡ acknowledged t
    → resend_loop (suc fuel) h s ≡ left t
unfolding resend_loop
resend_first fuel h s t c e =
    let test : ltb s.tx.resend_counter max_retry_count ≡ true = ground arith in
    rw (test, e, resend_loop)

-- Before block `i` is sent, with `k` blocks to go.
pub record Sending (h : Host) (bs : ℕ) (file : Bytes) (from : Address) (rest : List Arrival)
    (i k : ℕ) (s : Session) : Type 0 where
  pub loading : Loading bs file i s
  pub readable : s.tx.file.read_fails ≡ false
  pub response : 4 ≤ length s.tx.response_packet
  pub quiet : IsQuiet s.net
  pub inbox : s.net.inbox ≡ map (packet from) (ack_packets h.endian i k) ++ rest
  pub peer : s.net.peer_address ≡ from

module _ (h : Host) (bs : ℕ) (file : Bytes) (from : Address) (rest : List Arrival) where
  abbrev addressed : Bytes → Datagram
  addressed b = record { to = from; bytes = b }

  module _ (i k : ℕ) (s : Session) (v : Sending h bs file from rest i (suc k) s) where
    -- The session after the round is ready for the next block.
    after_ack :
        (t : Session)
        → Acked (load_block h s) from (map (packet from) (ack_packets h.endian (i + 1) k) ++ rest) t
        → Sending h bs file from rest (i + 1) k t
    unfolding load_block
    after_ack t a = record {
      loading = left-Loading h bs file i s v.loading t a.same_block;
      readable = rw a.same_block.file v.readable;
      response = rw a.response_buffer v.response;
      quiet = a.quiet;
      inbox = a.inbox;
      peer = a.peer;
    }

    abbrev later_acks : List Arrival
    later_acks = map (packet from) (ack_packets h.endian (i + 1) k) ++ rest

    acked_round :
        (t : Session) × (attempt h (load_block h s) ≡ acknowledged t)
        × Acked (load_block h s) from later_acks t
    unfolding load_block
    acked_round =
        acked_attempt h (load_block h s) from later_acks v.quiet
          (rw (number_is h bs file i s v.loading) v.inbox) (omega arith) v.response

    round_left : block_round h s ≡ left acked_round.0
    unfolding block_round
    round_left =
        rw (check_sigterm-IsQuiet h s.net v.quiet, no_failure, block_round)
          (resend_first max_retry_count h (load_block h s) acked_round.0 counter acked_round.1)
      where
        no_failure : read_failed (load_block h s) ≡ false
        no_failure = unfold read_failed load_block in ground (arith, v.readable)

        counter : (load_block h s).tx.resend_counter ≡ 0
        counter = unfold load_block in refl

    -- One block: it is sent once, and the next acknowledgement is taken.
    send_one :
        (t : Session) × (block_round h s ≡ left t)
        × Sending h bs file from rest (i + 1) k t
        × (t.tx.bytes_sent ≡ sizeof_packet + length (chunk bs file i))
        × (t.net.sent ≡ s.net.sent ++ addressed (block_packet h.endian bs file i) ∷ [])
    send_one =
        let (t, e, a) = acked_round in
        (
          t,
          round_left,
          after_ack t a,
          unfold load_block in
              a.counted ∙ ap (λ b. sizeof_packet + length b) (payload_is h bs file i s v.loading),
          unfold load_block in
              (a.sent
                ∙ ap₂ (λ to b. s.net.sent ++ record { to = to; bytes = b } ∷ []) v.peer
                    (outgoing-load_block h bs file i s v.loading)),
        )

  send_all :
      (k i fuel : ℕ) (s : Session)
      → 0 < bs
      → i + k ≡ block_count bs file
      → k < fuel
      → IsDue bs k s
      → Sending h bs file from rest i k s
      → (t : Session) × (block_loop fuel h s ≡ some (true, t))
        × (t.net.sent ≡ s.net.sent ++ map addressed (block_packets h.endian bs file i k))
        × (t.net.inbox ≡ rest)
  send_all k i zero s b n f due v = absurd (omega arith)
  send_all zero i (suc fuel) s b n f due v = (
    s,
    loop_end h fuel s (λ e. omega (arith, v.loading.max_size)),
    sym (append-nil s.net.sent),
    v.inbox,
  )
  send_all (suc k) i (suc fuel) s b n f due v =
      let (t, e, v', sent, log) = send_one i k s v in
      let (u, done, log', inbox) =
        send_all k (i + 1) fuel t b (omega arith) (omega arith) (next-IsDue bs file i k t b n sent)
          v' in
      (
        u,
        loop_round h fuel s t (due ∙ sym v.loading.max_size) e ∙ done,
        log'
            ∙ ap (λ l. l ++ map addressed (block_packets h.endian bs file (i + 1) k)) log
            ∙ append_assoc s.net.sent _ _,
        inbox,
      )

begin-Sending :
    (h : Host) (bs : ℕ) (from : Address) (rest : List Arrival) (s : Session)
    → IsReady bs s
    → s.tx.file.read_fails ≡ false
    → IsQuiet s.net
    → s.net.peer_address ≡ from
    → s.net.inbox
      ≡ map (packet from) (ack_packets h.endian 0 (block_count bs s.tx.file.unread)) ++ rest
    → Sending h bs s.tx.file.unread from rest 0
        (block_count bs s.tx.file.unread)
        (begin_transmission h s)
unfolding begin_transmission
begin-Sending h bs from rest s r ok q peer inbox = record {
  loading = begin-Loading h bs s r;
  readable = ok;
  response = omega (arith, r.response_buffer);
  quiet = q;
  inbox = inbox;
  peer = peer;
}

-- The transmission succeeds, has sent each block of the file once, in order, with the numbers
-- 1, 2, ... modulo 65536, and leaves `rest` unread.
abbrev pub Transmits : Host → ℕ → Address → List Arrival → Session → Type 0
Transmits h bs from rest s =
    let file = s.tx.file.unread in
    (t : Session) × (tftp_transmit_file h s ≡ some (true, t))
    × (t.net.sent
        ≡ s.net.sent
          ++ map (λ b. record { to = from; bytes = b })
              (block_packets h.endian bs file 0 (block_count bs file)))
    × (t.net.inbox ≡ rest)

-- If no signal arrives, every `sendto` succeeds, the file can be read, and the peer answers each
-- block with its acknowledgement, `tftp_transmit_file` returns true, has sent each block of the
-- file once, in order, with the numbers 1, 2, ... modulo 65536, and leaves what came later unread.
pub transmit_lossless :
    (h : Host) (bs : ℕ) (from : Address) (rest : List Arrival) (s : Session)
    → 0 < bs
    → IsReady bs s
    → s.tx.file.read_fails ≡ false
    → IsQuiet s.net
    → s.net.peer_address ≡ from
    → s.net.inbox
      ≡ map (packet from) (ack_packets h.endian 0 (block_count bs s.tx.file.unread)) ++ rest
    → Transmits h bs from rest s
unfolding tftp_transmit_file
transmit_lossless h bs from rest s b r ok q peer inbox =
    let n = block_count bs s.tx.file.unread in
    let v = begin-Sending h bs from rest s r ok q peer inbox in
    let (t, done, log, left_over) =
      send_all h bs s.tx.file.unread from rest n 0 (length s.tx.file.unread + 2)
        (begin_transmission h s) b (omega arith)
        (omega (arith, quotient-le (length s.tx.file.unread) bs b))
        (unfold begin_transmission in r.max_size) v in
    (t, rw (check_sigterm-IsQuiet h s.net q) done, unfold begin_transmission in log, left_over)
