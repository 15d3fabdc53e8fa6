-- ===== src/Transfer/Transmit/Missed.antt =====
-- A round of the transmitter in which no acknowledgement comes, and no error that it recognises.
use rted_tftp.Base.{
  ℕ, ◌+◌, ◌%◌, ◌<◌, ◌≤◌, ◌≡◌, ◌≢◌, refl, false, List, [], ◌∷◌, ◌++◌, Option, length, map,
  map-append, Bytes, ◌==◌, ltb, arith,
}
use rted_tftp.Protocol.{sizeof_packet, max_retry_count, tftp_error, tftp_ack}
use rted_tftp.Packet.{Endian, little, big, ntohs, load16, raw_opcode, overlay, error_packet}
use rted_tftp.Packet.Layout.{
  overlay_header, length-overlay, error_packet_lem, ntohs-header, error_text,
}
use rted_tftp.Net.{Address, Host, Net, Arrival, packet, timed_out, failed, deliver, recvfrom}
use rted_tftp.Net.Quiet.{IsQuiet, check_sigterm-IsQuiet, sendto-IsQuiet, recvfrom_packet}
use rted_tftp.Transfer.{Session}
use rted_tftp.Transfer.Transmit.{
  retry, is_error_response, is_expected_ack, end_round, read_response, store_response, on_arrival,
  await_response, count_sent, send_block, attempt,
}
use rted_tftp.Transfer.Transmit.Total.{SameBlock}
use rted_tftp.Transfer.Transmit.Reply.{is_error_response-raw}
use rted_tftp.Transfer.Transmit.Sent.{outgoing}

-- What the transmitter takes for no answer: a failure with ETIMEDOUT, or a datagram that is no acknowledgement
-- and whose opcode field, read in host order, is not 5.
abbrev pub IsUnheard : Endian → Arrival → Type 0
IsUnheard e (packet from b) =
    (4 ≤ length b) × (raw_opcode e b ≢ tftp_error) × (ntohs e (raw_opcode e b) ≢ tftp_ack)
IsUnheard e timed_out = Unit
IsUnheard e failed = ⊥

raw_opcode-overlay :
    (e : Endian) (m b : Bytes)
    → 4 ≤ length m
    → 4 ≤ length b
    → raw_opcode e (overlay m b) ≡ raw_opcode e b
unfolding load16
raw_opcode-overlay e m [] lm lb = absurd (omega arith)
raw_opcode-overlay e m (x ∷ []) lm lb = absurd (omega arith)
raw_opcode-overlay e m (x ∷ y ∷ []) lm lb = absurd (omega arith)
raw_opcode-overlay e m (x ∷ y ∷ z ∷ []) lm lb = absurd (omega arith)
raw_opcode-overlay little m (x ∷ y ∷ z ∷ w ∷ b) lm lb = rw (overlay_header m x y z w b lm) refl
raw_opcode-overlay big m (x ∷ y ∷ z ∷ w ∷ b) lm lb = rw (overlay_header m x y z w b lm) refl

test_false : (a b : ℕ) → a ≢ b → (a == b) ≡ false
test_false a b n = ground arith

unheard_response :
    (h : Host) (m b : Bytes) (k : ℕ)
    → 4 ≤ length m
    → (4 ≤ length b)
      × (raw_opcode h.endian b ≢ tftp_error)
      × (ntohs h.endian (raw_opcode h.endian b) ≢ tftp_ack)
    → (is_error_response h (overlay m b) ≡ false) × (is_expected_ack h (overlay m b) k ≡ false)
unfolding is_expected_ack
unheard_response h m b k lm (lb, no_error, no_ack) =
    let raw = raw_opcode-overlay h.endian m b lm lb in
    (
      rw (is_error_response-raw h (overlay m b), raw) (test_false _ tftp_error no_error),
      rw (raw, test_false _ tftp_ack no_ack) refl,
    )

-- What such a round leaves.
pub record Missed (s : Session) (rest : List Arrival) (t : Session) : Type 0 where
  pub same_block : SameBlock s.block_size s.tx t
  pub counter : t.tx.resend_counter ≡ s.tx.resend_counter + 1
  pub counted : t.tx.bytes_sent ≡ sizeof_packet + s.tx.latest_file_bytes_read
  pub response_buffer : length t.tx.response_packet ≡ length s.tx.response_packet
  pub quiet : IsQuiet t.net
  pub inbox : t.net.inbox ≡ rest
  pub sent : map (λ d. d.bytes) t.net.sent ≡ map (λ d. d.bytes) s.net.sent ++ outgoing s.tx ∷ []

recvfrom_timed_out :
    (n : Net) (rest : List Arrival)
    → n.inbox ≡ timed_out ∷ rest
    → recvfrom n ≡ (timed_out, record n { inbox = rest })
unfolding recvfrom
recvfrom_timed_out n rest e = ground (arith, e)

end_round-retry :
    (h : Host) (s : Session)
    → s.tx.resend_counter < max_retry_count
    → end_round h s
      ≡ retry (record s { tx = record s.tx { resend_counter = s.tx.resend_counter + 1 } })
unfolding end_round
end_round-retry h s c =
    let no_limit : ltb max_retry_count s.tx.resend_counter ≡ false = ground arith in
    let small : (s.tx.resend_counter + 1) % 256 ≡ s.tx.resend_counter + 1 = omega arith in
    rw (no_limit, small) refl

module _ (h : Host) (s : Session) (rest : List Arrival)
    (room : s.tx.resend_counter < max_retry_count) (buffer : 4 ≤ length s.tx.response_packet)
    (q : IsQuiet s.net) where
  delivered : Net
  delivered = deliver s.net (outgoing s.tx)

  log_bytes :
      map (λ d. d.bytes) delivered.sent ≡ map (λ d. d.bytes) s.net.sent ++ outgoing s.tx ∷ []
  unfolding delivered deliver
  log_bytes = map-append (λ d. d.bytes) s.net.sent _

  timed_round : Session
  timed_round = record s {
    tx = record (count_sent s).tx { resend_counter = s.tx.resend_counter + 1 };
    net = record delivered { inbox = rest };
  }

  packet_round : Address → Bytes → Session
  packet_round from b = record s {
    tx = record (store_response (count_sent s) b).tx { resend_counter = s.tx.resend_counter + 1 };
    net = record delivered { inbox = rest; peer_address = from };
  }

  pub timed_out-Missed :
      s.net.inbox ≡ timed_out ∷ rest → (t : Session) × (attempt h s ≡ retry t) × Missed s rest t
  unfolding attempt send_block await_response on_arrival count_sent timed_round delivered deliver
  timed_out-Missed inbox = (
    timed_round,
    rw
        (
          check_sigterm-IsQuiet h s.net q,
          sendto-IsQuiet s.net (outgoing s.tx) q,
          recvfrom_timed_out (deliver s.net (outgoing s.tx)) rest inbox,
        )
        (end_round-retry h _ room),
    record {
      same_block = ground arith;
      counter = refl;
      counted = refl;
      response_buffer = refl;
      quiet = record { no_signal = q.no_signal; no_loss = q.no_loss };
      inbox = refl;
      sent = log_bytes;
    },
  )

  pub packet-Missed :
      (from : Address) (b : Bytes)
      → s.net.inbox ≡ packet from b ∷ rest
      → IsUnheard h.endian (packet from b)
      → (t : Session) × (attempt h s ≡ retry t) × Missed s rest t
  unfolding attempt send_block await_response on_arrival read_response store_response count_sent
      packet_round delivered deliver
  packet-Missed from b inbox u =
      let (no_error, no_ack) =
        unheard_response h s.tx.response_packet b s.tx.current_block_number buffer u in
      (
        packet_round from b,
        rw
            (
              check_sigterm-IsQuiet h s.net q,
              sendto-IsQuiet s.net (outgoing s.tx) q,
              recvfrom_packet (deliver s.net (outgoing s.tx)) from b rest inbox,
              no_error,
              no_ack,
            )
            (end_round-retry h _ room),
        record {
          same_block = ground arith;
          counter = refl;
          counted = refl;
          response_buffer = length-overlay s.tx.response_packet b;
          quiet = record { no_signal = q.no_signal; no_loss = q.no_loss };
          inbox = refl;
          sent = log_bytes;
        },
      )

  pub unheard-Missed :
      (a : Arrival)
      → s.net.inbox ≡ a ∷ rest
      → IsUnheard h.endian a
      → (t : Session) × (attempt h s ≡ retry t) × Missed s rest t
  unheard-Missed (packet from b) inbox u = packet-Missed from b inbox u
  unheard-Missed timed_out inbox u = timed_out-Missed inbox
  unheard-Missed failed inbox u = absurd u

-- On a little-endian host an error packet goes unheard, whichever host has built it.
pub error_packet-IsUnheard :
    (builder : Endian) (c : ℕ) (message : Bytes) (item : Option Bytes) (from : Address)
    → IsUnheard little (packet from (error_packet builder c message item))
unfolding load16
error_packet-IsUnheard builder c message item from = rw (error_packet_lem builder c message item) (
  omega arith,
  λ e. absurd (omega (arith, e)),
  λ e. absurd (omega (arith, e, (ntohs-header little tftp_error c (error_text message item)).0)),
)
