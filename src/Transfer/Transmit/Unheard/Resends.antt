-- ===== src/Transfer/Transmit/Unheard/Resends.antt =====
-- A block that is never acknowledged is sent up to the limit and given up.
use rted_tftp.Base.{
  ℕ, zero, suc, ◌+◌, ◌<◌, ◌≤◌, ◌≡◌, refl, sym, ap, ap₂, ◌∙◌, ◌⊎◌, inl, inr, true, false, List, [],
  ◌∷◌, ◌++◌, length, take, drop, map, replicate, Bytes, ltb, arith, All, append-nil, append_assoc,
}
use rted_tftp.Protocol.{sizeof_packet, max_retry_count}
use rted_tftp.Net.{Host, Arrival}
use rted_tftp.Net.Quiet.{IsQuiet}
use rted_tftp.Transfer.{Session}
use rted_tftp.Transfer.Transmit.{retry, attempt, left, resend_loop}
use rted_tftp.Transfer.Transmit.Total.{SameBlock}
use rted_tftp.Transfer.Transmit.Sent.{outgoing}
use rted_tftp.Transfer.Transmit.Missed.{IsUnheard, Missed, unheard-Missed}

abbrev pub log : Session → List Bytes
log s = map (λ d. d.bytes) s.net.sent

-- What `k` rounds with no answer leave.
pub record Exhausted (k : ℕ) (s t : Session) : Type 0 where
  pub same_block : SameBlock s.block_size s.tx t
  pub counted :
      (t.tx.bytes_sent ≡ sizeof_packet + s.tx.latest_file_bytes_read)
      ⊎ ((k ≡ 0) × (t.tx.bytes_sent ≡ s.tx.bytes_sent))
  pub response_buffer : length t.tx.response_packet ≡ length s.tx.response_packet
  pub quiet : IsQuiet t.net
  pub inbox : t.net.inbox ≡ drop k s.net.inbox
  pub sent : log t ≡ log s ++ replicate k (outgoing s.tx)

same-Exhausted : (s : Session) → IsQuiet s.net → Exhausted 0 s s
same-Exhausted s q = record {
  same_block = record {
    same_size = refl;
    max_size = refl;
    number = refl;
    bytes_read = refl;
    file = refl;
    packet_buffer = refl;
  };
  counted = inr (refl, refl);
  response_buffer = refl;
  quiet = q;
  inbox = refl;
  sent = sym (append-nil (log s));
}

more-Exhausted :
    (k : ℕ) (s t u : Session) (a : Arrival) (rest : List Arrival)
    → s.net.inbox ≡ a ∷ rest
    → Missed s rest t
    → Exhausted k t u
    → Exhausted (suc k) s u
more-Exhausted k s t u a rest i m x = record {
  same_block = ground (arith, m.same_block, x.same_block);
  counted = inl (ground (arith, m.counted, x.counted, m.same_block, x.same_block));
  response_buffer = x.response_buffer ∙ m.response_buffer;
  quiet = x.quiet;
  inbox = x.inbox ∙ ap (drop k) m.inbox ∙ sym (ap (drop (suc k)) i);
  sent =
      x.sent
      ∙ ap₂ (λ l o. l ++ replicate k o) m.sent
          (ap₂ (λ n c. take (sizeof_packet + n) c) m.same_block.bytes_read
            m.same_block.packet_buffer)
      ∙ append_assoc (log s) (outgoing s.tx ∷ []) (replicate k (outgoing s.tx));
}

resend_end :
    (fuel : ℕ) (h : Host) (s : Session)
    → s.tx.resend_counter ≡ max_retry_count
    → resend_loop (suc fuel) h s ≡ left s
unfolding resend_loop
resend_end fuel h s c =
    let test : ltb s.tx.resend_counter max_retry_count ≡ false = ground arith in
    rw (test, resend_loop)

pub resend_again :
    (fuel : ℕ) (h : Host) (s t : Session)
    → s.tx.resend_counter < max_retry_count
    → attempt h s ≡ retry t
    → resend_loop (suc fuel) h s ≡ resend_loop fuel h t
unfolding resend_loop
resend_again fuel h s t c e =
    let test : ltb s.tx.resend_counter max_retry_count ≡ true = ground arith in
    rw (test, e, resend_loop)

-- With `k` rounds to the limit, the block is sent `k` times, and given up.
pub resend_unheard :
    (k fuel : ℕ) (h : Host) (s : Session) (i : List Arrival)
    → s.tx.resend_counter + k ≡ max_retry_count
    → k < fuel
    → 4 ≤ length s.tx.response_packet
    → IsQuiet s.net
    → s.net.inbox ≡ i
    → k ≤ length i
    → All (IsUnheard h.endian) i
    → (t : Session) × (resend_loop fuel h s ≡ left t) × Exhausted k s t
resend_unheard k zero h s i c f room q e l u = absurd (omega arith)
resend_unheard zero (suc fuel) h s i c f room q e l u =
    (s, resend_end fuel h s (omega arith), same-Exhausted s q)
resend_unheard (suc k) (suc fuel) h s [] c f room q e l u = absurd (omega arith)
resend_unheard (suc k) (suc fuel) h s (a ∷ i) c f room q e l u =
    let (t, again, m) = unheard-Missed h s i (omega arith) room q a e u.0 in
    let (v, end, x) =
      resend_unheard k fuel h t i (omega (arith, m.counter)) (omega arith)
        (omega (arith, m.response_buffer)) m.quiet m.inbox (omega arith) u.1 in
    (v, resend_again fuel h s t (omega arith) again ∙ end, more-Exhausted k s t v a i e m x)
