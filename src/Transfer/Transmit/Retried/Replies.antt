-- ===== src/Transfer/Transmit/Retried/Replies.antt =====
-- A block that is acknowledged after some rounds without an answer.
use rted_tftp.Base.{
  ℕ, zero, suc, ◌+◌, ◌<◌, ◌≤◌, ◌≡◌, sym, ap, ap₂, ◌∙◌, true, List, [], ◌∷◌, ◌++◌, length, take, map,
  map-append, replicate, ltb, arith, All, append_assoc,
}
use rted_tftp.Protocol.{sizeof_packet, max_retry_count}
use rted_tftp.Packet.{ack_packet}
use rted_tftp.Net.{Address, Host, Arrival, packet}
use rted_tftp.Net.Quiet.{IsQuiet}
use rted_tftp.Transfer.{Session}
use rted_tftp.Transfer.Transmit.{acknowledged, attempt, left, resend_loop}
use rted_tftp.Transfer.Transmit.Total.{SameBlock}
use rted_tftp.Transfer.Transmit.Sent.{outgoing}
use rted_tftp.Transfer.Transmit.Reply.{Acked, acked_attempt}
use rted_tftp.Transfer.Transmit.Missed.{IsUnheard, Missed, unheard-Missed}
use rted_tftp.Transfer.Transmit.Unheard.Resends.{log, resend_again}

-- What the sending of one block leaves, after `k` rounds of which the last one has its answer.
pub record Answered (k : ℕ) (s : Session) (rest : List Arrival) (t : Session) : Type 0 where
  pub same_block : SameBlock s.block_size s.tx t
  pub counted : t.tx.bytes_sent ≡ sizeof_packet + s.tx.latest_file_bytes_read
  pub response_buffer : length t.tx.response_packet ≡ length s.tx.response_packet
  pub quiet : IsQuiet t.net
  pub inbox : t.net.inbox ≡ rest
  pub sent : log t ≡ log s ++ replicate k (outgoing s.tx)

acked-Answered :
    (s t : Session) (from : Address) (rest : List Arrival)
    → Acked s from rest t
    → Answered 1 s rest t
acked-Answered s t from rest a = record {
  same_block = a.same_block;
  counted = a.counted;
  response_buffer = a.response_buffer;
  quiet = a.quiet;
  inbox = a.inbox;
  sent = ap (map (λ d. d.bytes)) a.sent ∙ map-append (λ d. d.bytes) s.net.sent _;
}

more-Answered :
    (k : ℕ) (s t u : Session) (later rest : List Arrival)
    → Missed s later t
    → Answered k t rest u
    → Answered (suc k) s rest u
more-Answered k s t u later rest m x = record {
  same_block = ground (arith, m.same_block, x.same_block);
  counted = ground (arith, x.counted, m.same_block);
  response_buffer = x.response_buffer ∙ m.response_buffer;
  quiet = x.quiet;
  inbox = x.inbox;
  sent =
      x.sent
      ∙ ap₂ (λ l o. l ++ replicate k o) m.sent
          (ap₂ (λ n c. take (sizeof_packet + n) c) m.same_block.bytes_read
            m.same_block.packet_buffer)
      ∙ append_assoc (log s) (outgoing s.tx ∷ []) (replicate k (outgoing s.tx));
}

resend_acked :
    (fuel : ℕ) (h : Host) (s t : Session)
    → s.tx.resend_counter < max_retry_count
    → attempt h s ≡ acknowledged t
    → resend_loop (suc fuel) h s ≡ left t
unfolding resend_loop
resend_acked fuel h s t c e =
    let test : ltb s.tx.resend_counter max_retry_count ≡ true = ground arith in
    rw (test, e, resend_loop)

-- The block is sent once for each round without an answer, and once more.
pub resend_answered :
    (gap : List Arrival) (fuel : ℕ) (h : Host) (s : Session) (from : Address) (rest : List Arrival)
    → s.tx.resend_counter + length gap < max_retry_count
    → length gap < fuel
    → s.net.inbox ≡ gap ++ packet from (ack_packet h.endian s.tx.current_block_number) ∷ rest
    → s.tx.current_block_number < 65536
    → 4 ≤ length s.tx.response_packet
    → IsQuiet s.net
    → All (IsUnheard h.endian) gap
    → (t : Session) × (resend_loop fuel h s ≡ left t) × Answered (suc (length gap)) s rest t
resend_answered gap zero h s from rest c f i small room q u = absurd (omega arith)
resend_answered [] (suc fuel) h s from rest c f i small room q u =
    let (t, e, a) = acked_attempt h s from rest q i small room in
    (t, resend_acked fuel h s t (omega arith) e, acked-Answered s t from rest a)
resend_answered (a ∷ gap) (suc fuel) h s from rest c f i small room q u =
    let (t, again, m) = unheard-Missed h s _ (omega arith) room q a i u.0 in
    let same = m.same_block.number in
    let (v, end, x) =
      resend_answered gap fuel h t from rest (omega (arith, m.counter)) (omega arith)
        (m.inbox ∙ ap (λ n. gap ++ packet from (ack_packet h.endian n) ∷ rest) (sym same))
        (rw same small) (omega (arith, m.response_buffer)) m.quiet u.1 in
    (
      v,
      resend_again fuel h s t (omega arith) again ∙ end,
      more-Answered (suc (length gap)) s t v _ rest m x,
    )
