-- ===== src/Transfer/Transmit/Sent.antt =====
-- Whatever comes in, all that `tftp_transmit_file` sends are the blocks that it loads and errors.
use rted_tftp.Base.{
  ℕ, zero, suc, ◌+◌, sym, ap₂, inl, inr, subst, Option, take, Bytes, ltb, arith, Bool-cases,
}
use rted_tftp.Protocol.{sizeof_packet, max_retry_count}
use rted_tftp.Packet.{Endian, error_packet}
use rted_tftp.Net.{Host, Arrival, packet, timed_out, failed, sendto, check_sigterm}
use rted_tftp.Net.Sent.{
  AllSent, sendto-AllSent, recvfrom-AllSent, send_error-AllSent, check_sigterm-AllSent,
}
use rted_tftp.Transfer.{TransferData, Session}
use rted_tftp.Transfer.Transmit.{
  Attempt, acknowledged, retry, returned, end_round, read_response, store_response, on_arrival,
  await_response, count_sent, send_block, attempt, Leave, left, stopped, spent, resend_loop,
  load_block, read_failed, fail_at_file, block_round,
}
use rted_tftp.Transfer.Transmit.Total.{Rounds, attempt-Rounds}

-- What is sent from the packet buffer.
abbrev pub outgoing : TransferData → Bytes
outgoing tx = take (sizeof_packet + tx.latest_file_bytes_read) tx.data_packet

abbrev AttemptSent : (Bytes → Type 0) → Attempt → Type 0
AttemptSent P (acknowledged t) = AllSent P t.net
AttemptSent P (retry t) = AllSent P t.net
AttemptSent P (returned t) = AllSent P t.net

abbrev pub LeaveSent : (Bytes → Type 0) → Leave → Type 0
LeaveSent P (left t) = AllSent P t.net
LeaveSent P (stopped t) = AllSent P t.net
LeaveSent P spent = Unit

module _ (P : Bytes → Type 0)
    (errors : (e : Endian) (c : ℕ) (message : Bytes) (item : Option Bytes)
      → P (error_packet e c message item)) where
  end_round-Sent : (h : Host) (s : Session) → AllSent P s.net → AttemptSent P (end_round h s)
  unfolding end_round
  end_round-Sent h s a = elim (Bool-cases (ltb max_retry_count s.tx.resend_counter)) [
    | inl e ↦ rw e (send_error-AllSent P errors h _ _ _ s.net a)
    | inr e ↦ rw e a
  ]

  read_response-Sent :
      (h : Host) (s : Session) → AllSent P s.net → AttemptSent P (read_response h s)
  unfolding read_response
  read_response-Sent h s a = ground (arith, end_round-Sent h s a)

  on_arrival-Sent :
      (h : Host) (s : Session) (a : Arrival) → AllSent P s.net → AttemptSent P (on_arrival h s a)
  unfolding on_arrival store_response
  on_arrival-Sent h s (packet from bytes) a = read_response-Sent h (store_response s bytes) a
  on_arrival-Sent h s timed_out a = end_round-Sent h s a
  on_arrival-Sent h s failed a = send_error-AllSent P errors h _ _ _ s.net a

  send_block-Sent :
      (h : Host) (s : Session)
      → P (outgoing s.tx)
      → AllSent P s.net
      → AttemptSent P (send_block h s)
  unfolding send_block await_response count_sent
  send_block-Sent h s p a =
      let sent = sendto-AllSent P s.net (outgoing s.tx) p a in
      elim (Bool-cases (sendto s.net (outgoing s.tx)).0) [
        | inl e ↦
            rw e (on_arrival-Sent h _ _ (recvfrom-AllSent P (sendto s.net (outgoing s.tx)).1 sent))
        | inr e ↦ rw e (send_error-AllSent P errors h _ _ _ (sendto s.net (outgoing s.tx)).1 sent)
      ]

  attempt-Sent :
      (h : Host) (s : Session) → P (outgoing s.tx) → AllSent P s.net → AttemptSent P (attempt h s)
  unfolding attempt
  attempt-Sent h s p a =
      let polled = check_sigterm-AllSent P errors h s.net a in
      elim (Bool-cases (check_sigterm h s.net).0) [
        | inl e ↦ rw e polled
        | inr e ↦ rw e (send_block-Sent h (record s { net = (check_sigterm h s.net).1 }) p polled)
      ]

  after_attempt :
      (h : Host) (fuel : ℕ) (a : Attempt) (s : Session)
      → Rounds s.block_size s.tx (sizeof_packet + s.tx.latest_file_bytes_read) a
      → AttemptSent P a
      → P (outgoing s.tx)
      → ((t : Session) → P (outgoing t.tx) → AllSent P t.net → LeaveSent P (resend_loop fuel h t))
      → LeaveSent P (elim a [
        | acknowledged t ↦ left t
        | retry t ↦ resend_loop fuel h t
        | returned t ↦ stopped t
      ])
  after_attempt h fuel (acknowledged t) s r a p rec = a
  after_attempt h fuel (retry t) s (same, counted, r) a p rec =
      rec t
        (subst P
          (ap₂ (λ n m. take (sizeof_packet + n) m) (sym same.bytes_read) (sym same.packet_buffer))
          p)
        a
  after_attempt h fuel (returned t) s r a p rec = a

  pub resend_loop-Sent :
      (fuel : ℕ) (h : Host) (s : Session)
      → P (outgoing s.tx)
      → AllSent P s.net
      → LeaveSent P (resend_loop fuel h s)
  unfolding resend_loop
  resend_loop-Sent zero h s p a = tt
  resend_loop-Sent (suc fuel) h s p a =
      elim (Bool-cases (ltb s.tx.resend_counter max_retry_count)) [
        | inl e ↦
            rw (e, LeaveSent, resend_loop)
              (after_attempt h fuel (attempt h s) s (attempt-Rounds h s (ground arith))
                (attempt-Sent h s p a) p (λ t q b. resend_loop-Sent fuel h t q b))
        | inr e ↦ rw (e, LeaveSent, resend_loop) a
      ]

  -- A block that is loaded next may be sent.
  pub block_round-Sent :
      (h : Host) (s : Session)
      → P (outgoing (load_block h s).tx)
      → AllSent P s.net
      → LeaveSent P (block_round h s)
  unfolding block_round load_block fail_at_file
  block_round-Sent h s p a =
      let polled = check_sigterm-AllSent P errors h s.net a in
      elim (Bool-cases (check_sigterm h s.net).0) [
        | inl e ↦ rw e polled
        | inr e ↦
            let loaded = load_block h (record s { net = (check_sigterm h s.net).1 }) in
            rw e (elim (Bool-cases (read_failed loaded)) [
              | inl f ↦ rw f (send_error-AllSent P errors h _ _ _ (check_sigterm h s.net).1 polled)
              | inr f ↦ rw f (resend_loop-Sent (max_retry_count + 1) h loaded p polled)
            ])
      ]
