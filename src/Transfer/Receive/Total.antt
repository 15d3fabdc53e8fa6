-- ===== src/Transfer/Receive/Total.antt =====
-- The loops of `tftp_receive_file` end.
use rted_tftp.Base.{
  ℕ, zero, suc, ◌+◌, ◌<◌, ◌≡◌, ◌≢◌, inl, inr, List, [], ◌∷◌, length, take, drop, ◌==◌, ltb, arith,
  Bool-cases, ◌∙◌, subst,
}
use rted_tftp.Protocol.{sizeof_packet, max_retry_count}
use rted_tftp.Net.{Host, Arrival, packet, timed_out, failed, recvfrom, check_sigterm}
use rted_tftp.Net.Frame.{send_ack-inbox, check_sigterm-inbox}
use rted_tftp.Transfer.{Session}
use rted_tftp.Transfer.Receive.{
  Received, got_block, waiting, returned, overread, fwrite, payload_size, acknowledge_block,
  write_block, print_error, read_packet, count_failure, store_packet, on_arrival, receive_once,
  Round, again, ended, past_buffer, end_of_round, Outcome, finished, overran, spent, receive_loop,
  begin_reception, tftp_receive_file,
}

-- What is left to receive after a call, where the function goes on.
abbrev Keeps : List Arrival → Received → Type 0
Keeps i (got_block t) = t.net.inbox ≡ i
Keeps i (waiting t) = t.net.inbox ≡ i
Keeps i (returned t) = Unit {0}
Keeps i (overread t) = Unit {0}

write_block-Keeps : (h : Host) (s : Session) → Keeps s.net.inbox (write_block h s)
unfolding write_block acknowledge_block
write_block-Keeps h s =
    let size = payload_size s.tx.bytes_received in
    let cells = drop sizeof_packet s.tx.data_packet in
    elim (Bool-cases (ltb (length cells) size)) [
      | inl e ↦ rw e tt
      | inr e ↦ rw e (elim (Bool-cases ((fwrite s.tx.file (take size cells)).1 == 0)) [
        | inl f ↦ rw f tt
        | inr f ↦ rw f (send_ack-inbox h s.tx.current_block_number s.net)
      ])
    ]

print_error-Keeps : (s : Session) → Keeps s.net.inbox (print_error s)
unfolding print_error
print_error-Keeps s = ground arith

read_packet-Keeps : (h : Host) (s : Session) → Keeps s.net.inbox (read_packet h s)
unfolding read_packet
read_packet-Keeps h s = ground (arith, write_block-Keeps h s, print_error-Keeps s)

count_failure-Keeps : (h : Host) (s : Session) → Keeps s.net.inbox (count_failure h s)
unfolding count_failure
count_failure-Keeps h s = ground arith

on_arrival-Keeps : (h : Host) (s : Session) (a : Arrival) → Keeps s.net.inbox (on_arrival h s a)
unfolding on_arrival store_packet
on_arrival-Keeps h s (packet from []) = count_failure-Keeps h s
on_arrival-Keeps h s (packet from (b ∷ bytes)) = read_packet-Keeps h (store_packet s (b ∷ bytes))
on_arrival-Keeps h s timed_out = count_failure-Keeps h s
on_arrival-Keeps h s failed = count_failure-Keeps h s

-- Where the loops go on, an arrival has been used up, or a failure counted.
abbrev pub Advances : List Arrival → ℕ → Round → Type 0
Advances [] counter (again t) =
    (t.net.inbox ≡ []) × (counter < max_retry_count) × (t.tx.resend_counter ≡ counter + 1)
Advances (a ∷ rest) counter (again t) = t.net.inbox ≡ rest
Advances i counter (ended ok t) = Unit {0}
Advances i counter (past_buffer t) = Unit {0}

end_of_round-Advances :
    (h : Host) (a : Arrival) (rest : List Arrival) (counter : ℕ) (r : Received)
    → Keeps rest r
    → Advances (a ∷ rest) counter (end_of_round h r)
unfolding end_of_round
end_of_round-Advances h a rest counter (got_block t) k =
    elim (Bool-cases (t.tx.bytes_received == t.tx.data_packet_max_size)) [
      | inl e ↦ rw e (elim (Bool-cases (check_sigterm h t.net).0) [
        | inl f ↦ rw f tt
        | inr f ↦ rw f (check_sigterm-inbox h t.net ∙ k)
      ])
      | inr e ↦ rw e tt
    ]
end_of_round-Advances h a rest counter (waiting t) k = k
end_of_round-Advances h a rest counter (returned t) k = tt
end_of_round-Advances h a rest counter (overread t) k = tt

starved-Advances :
    (h : Host) (s : Session)
    → s.net.inbox ≡ []
    → Advances [] s.tx.resend_counter (end_of_round h (count_failure h s))
unfolding end_of_round count_failure
starved-Advances h s e = ground arith

pub round-Advances :
    (h : Host) (s : Session) (i : List Arrival)
    → s.net.inbox ≡ i
    → Advances i s.tx.resend_counter (end_of_round h (receive_once h s))
unfolding receive_once recvfrom
round-Advances h s [] e =
    rw (e, receive_once, recvfrom) (unfold on_arrival in starved-Advances h s e)
round-Advances h s (packet from b ∷ rest) e =
    let s' = record s { net = record s.net { inbox = rest; peer_address = from } } in
    rw (e, receive_once, recvfrom)
      (end_of_round-Advances h (packet from b) rest s.tx.resend_counter _
        (on_arrival-Keeps h s' (packet from b)))
round-Advances h s (timed_out ∷ rest) e =
    let s' = record s { net = record s.net { inbox = rest } } in
    rw (e, receive_once, recvfrom)
      (end_of_round-Advances h timed_out rest s.tx.resend_counter _
        (on_arrival-Keeps h s' timed_out))
round-Advances h s (failed ∷ rest) e =
    let s' = record s { net = record s.net { inbox = rest } } in
    rw (e, receive_once, recvfrom)
      (end_of_round-Advances h failed rest s.tx.resend_counter _ (on_arrival-Keeps h s' failed))

abbrev Ends : Outcome → Type 0
Ends (finished ok t) = Unit {0}
Ends (overran t) = Unit {0}
Ends spent = ⊥

after_round :
    (h : Host) (i : List Arrival) (counter fuel : ℕ) (r : Round)
    → Advances i counter r
    → ((t : Session) → Advances i counter (again t) → Ends (receive_loop fuel h t))
    → Ends (elim r [
      | again t ↦ receive_loop fuel h t
      | ended outcome t ↦ finished outcome t
      | past_buffer t ↦ overran t
    ])
after_round h i counter fuel (again t) a rec = rec t a
after_round h i counter fuel (ended outcome t) a rec = tt
after_round h i counter fuel (past_buffer t) a rec = tt

-- With nothing more to receive, failures are counted up to the limit, and the next one ends the
-- function.
starved-Ends :
    (fuel : ℕ) (h : Host) (s : Session)
    → s.net.inbox ≡ []
    → 0 < fuel
    → max_retry_count < fuel + s.tx.resend_counter
    → Ends (receive_loop fuel h s)
unfolding receive_loop
starved-Ends zero h s e c f = absurd (omega arith)
starved-Ends (suc fuel) h s e c f =
    after_round h [] s.tx.resend_counter fuel _ (round-Advances h s [] e)
      λ t (rest, less, more). starved-Ends fuel h t rest (omega arith) (omega arith)

receive_loop-Ends :
    (i : List Arrival) (fuel : ℕ) (h : Host) (s : Session)
    → s.net.inbox ≡ i
    → length i + max_retry_count < fuel
    → Ends (receive_loop fuel h s)
unfolding receive_loop
receive_loop-Ends i zero h s e f = absurd (omega arith)
receive_loop-Ends [] (suc fuel) h s e f = starved-Ends (suc fuel) h s e (omega arith) (omega arith)
receive_loop-Ends (a ∷ rest) (suc fuel) h s e f =
    after_round h (a ∷ rest) s.tx.resend_counter fuel _ (round-Advances h s (a ∷ rest) e)
      λ t e'. receive_loop-Ends rest fuel h t e' (omega arith)

Ends-not-spent : (o : Outcome) → Ends o → o ≢ spent
Ends-not-spent o e eq = subst Ends eq e

-- `tftp_receive_file` returns, or reads past its buffer, on every finite sequence of arrivals: its
-- loops never go on without end, whatever the network and the disk do.
pub receive_total : (h : Host) (s : Session) → tftp_receive_file h s ≢ spent
unfolding tftp_receive_file begin_reception
receive_total h s =
    Ends-not-spent (tftp_receive_file h s) (elim (Bool-cases (check_sigterm h s.net).0) [
      | inl e ↦ rw e tt
      | inr e ↦ rw e (elim (Bool-cases (check_sigterm h (check_sigterm h s.net).1).0) [
        | inl f ↦ rw f tt
        | inr f ↦ rw f (
            receive_loop-Ends s.net.inbox _ h _
              (check_sigterm-inbox h (check_sigterm h s.net).1 ∙ check_sigterm-inbox h s.net)
              (omega arith))
      ])
    ])
