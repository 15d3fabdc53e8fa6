-- ===== src/Transfer/Transmit/Total.antt =====
-- What a round of `tftp_transmit_file` leaves alone, and that its loops end.
use rted_tftp.Base.{
  ℕ, zero, suc, ◌+◌, ◌-◌, ◌<◌, ◌≤◌, ◌≡◌, refl, ◌⊎◌, inl, inr, Bool, false, Option, none, some,
  length, take, min, ◌==◌, ltb, arith, Bool-cases, ap, ==_iff, ◌∙◌, length-take, length-drop,
}
use rted_tftp.Protocol.{sizeof_packet, max_retry_count}
use rted_tftp.Net.{Host, Arrival, packet, timed_out, failed, sendto, recvfrom, check_sigterm}
use rted_tftp.Transfer.{TransferData, Session}
use rted_tftp.Transfer.Transmit.{
  Attempt, acknowledged, retry, returned, end_round, read_response, store_response, on_arrival,
  await_response, count_sent, send_block, attempt, Leave, left, stopped, spent, resend_loop,
  load_block, read_failed, block_round, block_loop, begin_transmission, tftp_transmit_file,
}

-- The sending of one block changes neither the block nor the file.
pub record SameBlock (block_size : ℕ) (tx : TransferData) (t : Session) : Type 0 where
  pub same_size : t.block_size ≡ block_size
  pub max_size : t.tx.data_packet_max_size ≡ tx.data_packet_max_size
  pub number : t.tx.current_block_number ≡ tx.current_block_number
  pub bytes_read : t.tx.latest_file_bytes_read ≡ tx.latest_file_bytes_read
  pub file : t.tx.file ≡ tx.file
  pub packet_buffer : t.tx.data_packet ≡ tx.data_packet

-- The outcome of a round begun with `tx`, where `sent` is the count of bytes that went out.
abbrev pub Rounds : ℕ → TransferData → ℕ → Attempt → Type 0
Rounds bs tx sent (acknowledged t) = SameBlock bs tx t × (t.tx.bytes_sent ≡ sent)
Rounds bs tx sent (retry t) =
    SameBlock bs tx t × (t.tx.bytes_sent ≡ sent) × (t.tx.resend_counter ≡ tx.resend_counter + 1)
Rounds bs tx sent (returned t) = Unit {0}

-- `tx` is the transfer at the start of the round; the session may have counted bytes since.
module _ (h : Host) (s : Session) (tx : TransferData) (room : tx.resend_counter < max_retry_count)
    (counter : s.tx.resend_counter ≡ tx.resend_counter) (same : SameBlock s.block_size tx s) where
  end_round-Rounds : Rounds s.block_size tx s.tx.bytes_sent (end_round h s)
  unfolding end_round
  end_round-Rounds = ground arith

  read_response-Rounds : Rounds s.block_size tx s.tx.bytes_sent (read_response h s)
  unfolding read_response end_round
  read_response-Rounds = ground arith

on_arrival-Rounds :
    (h : Host) (s : Session) (tx : TransferData) (a : Arrival)
    → tx.resend_counter < max_retry_count
    → s.tx.resend_counter ≡ tx.resend_counter
    → SameBlock s.block_size tx s
    → Rounds s.block_size tx s.tx.bytes_sent (on_arrival h s a)
unfolding on_arrival store_response
on_arrival-Rounds h s tx (packet from bytes) c e b = read_response-Rounds h _ tx c e (ground arith)
on_arrival-Rounds h s tx timed_out c e b = end_round-Rounds h s tx c e b
on_arrival-Rounds h s tx failed c e b = tt

send_block-Rounds :
    (h : Host) (s : Session)
    → s.tx.resend_counter < max_retry_count
    → Rounds s.block_size s.tx (sizeof_packet + s.tx.latest_file_bytes_read) (send_block h s)
unfolding send_block await_response count_sent
send_block-Rounds h s c =
    let outgoing = take (sizeof_packet + s.tx.latest_file_bytes_read) s.tx.data_packet in
    elim (Bool-cases (sendto s.net outgoing).0) [
      | inl e ↦
          rw e (
            on_arrival-Rounds h _ s.tx (recvfrom (sendto s.net outgoing).1).0 c refl (ground arith))
      | inr e ↦ rw e tt
    ]

pub attempt-Rounds :
    (h : Host) (s : Session)
    → s.tx.resend_counter < max_retry_count
    → Rounds s.block_size s.tx (sizeof_packet + s.tx.latest_file_bytes_read) (attempt h s)
unfolding attempt
attempt-Rounds h s c = elim (Bool-cases (check_sigterm h s.net).0) [
  | inl e ↦ rw e tt
  | inr e ↦ rw e (send_block-Rounds h (record s { net = (check_sigterm h s.net).1 }) c)
]

-- The inner loop ends, and what it leaves has sent the block that it was given.
abbrev pub Leaves : ℕ → TransferData → Leave → Type 0
Leaves bs tx (left t) =
    SameBlock bs tx t × (t.tx.bytes_sent ≡ sizeof_packet + tx.latest_file_bytes_read)
Leaves bs tx (stopped t) = Unit {0}
Leaves bs tx spent = ⊥

after_attempt :
    (h : Host) (s : Session) (bs : ℕ) (tx : TransferData) (fuel : ℕ) (a : Attempt)
    → SameBlock bs tx s
    → Rounds s.block_size s.tx (sizeof_packet + s.tx.latest_file_bytes_read) a
    → ((t : Session)
        → SameBlock bs tx t
        → t.tx.resend_counter ≡ s.tx.resend_counter + 1
        → t.tx.bytes_sent ≡ sizeof_packet + tx.latest_file_bytes_read
        → Leaves bs tx (resend_loop fuel h t))
    → Leaves bs tx (elim a [
      | acknowledged t ↦ left t
      | retry t ↦ resend_loop fuel h t
      | returned t ↦ stopped t
    ])
after_attempt h s bs tx fuel (acknowledged t) b r rec = ground arith
after_attempt h s bs tx fuel (retry t) b r rec = rec t (ground arith) r.2 (omega arith)
after_attempt h s bs tx fuel (returned t) b r rec = tt

resend_loop-Leaves :
    (fuel : ℕ) (h : Host) (s : Session) (bs : ℕ) (tx : TransferData)
    → SameBlock bs tx s
    → s.tx.resend_counter ≤ max_retry_count
    → max_retry_count < fuel + s.tx.resend_counter
    → (s.tx.bytes_sent ≡ sizeof_packet + tx.latest_file_bytes_read)
      ⊎ (s.tx.resend_counter < max_retry_count)
    → Leaves bs tx (resend_loop fuel h s)
unfolding resend_loop
resend_loop-Leaves zero h s bs tx b c f p = absurd (omega arith)
resend_loop-Leaves (suc fuel) h s bs tx b c f p =
    elim (Bool-cases (ltb s.tx.resend_counter max_retry_count)) [
      | inl e ↦
          rw (e, Leaves, resend_loop)
            (after_attempt h s bs tx fuel (attempt h s) b (attempt-Rounds h s (ground arith))
              λ t b' k sent.
                resend_loop-Leaves fuel h t bs tx b' (ground arith) (omega arith) (inl sent))
      | inr e ↦ rw (e, Leaves, resend_loop) (b, ground arith)
    ]

pub block_round-Leaves :
    (h : Host) (s : Session) → Leaves s.block_size (load_block h s).tx (block_round h s)
unfolding block_round load_block
block_round-Leaves h s = elim (Bool-cases (check_sigterm h s.net).0) [
  | inl e ↦ rw e tt
  | inr e ↦
      let loaded = load_block h (record s { net = (check_sigterm h s.net).1 }) in
      rw e (elim (Bool-cases (read_failed loaded)) [
        | inl f ↦ rw f tt
        | inr f ↦ rw f (
            resend_loop-Leaves (max_retry_count + 1) h loaded s.block_size (load_block h s).tx
              (ground arith) (omega arith) (omega arith) (inr (omega arith)))
      ])
]

abbrev Ends : Option (Bool × Session) → Type 0
Ends none = ⊥
Ends (some r) = Unit {0}

Ends-some : (o : Option (Bool × Session)) → Ends o → (r : Bool × Session) × (o ≡ some r)
Ends-some none e = absurd e
Ends-some (some r) e = (r, refl)

after_round :
    (h : Host) (s : Session) (fuel : ℕ) (l : Leave)
    → Leaves s.block_size (load_block h s).tx l
    → ((t : Session)
        → Leaves s.block_size (load_block h s).tx (left t)
        → Ends (block_loop fuel h t))
    → Ends (elim l [ left t ↦ block_loop fuel h t | stopped t ↦ some (false, t) | spent ↦ none ])
after_round h s fuel (left t) b rec = rec t b
after_round h s fuel (stopped t) b rec = tt
after_round h s fuel spent b rec = b

-- What one block leaves of the file, and what it sent.
left-load_block :
    (h : Host) (s t : Session)
    → Leaves s.block_size (load_block h s).tx (left t)
    → (t.block_size ≡ s.block_size)
      × (t.tx.data_packet_max_size ≡ s.tx.data_packet_max_size)
      × (length t.tx.file.unread ≡ length s.tx.file.unread - s.block_size)
      × (t.tx.bytes_sent ≡ sizeof_packet + min s.block_size (length s.tx.file.unread))
unfolding load_block
left-load_block h s t (b, sent) = (
  b.same_size,
  b.max_size,
  rw b.file (length-drop s.block_size s.tx.file.unread),
  sent ∙ ap (λ n. sizeof_packet + n) (length-take s.block_size s.tx.file.unread),
)

block_loop-Ends :
    (fuel : ℕ) (h : Host) (s : Session)
    → 0 < s.block_size
    → s.tx.data_packet_max_size ≡ sizeof_packet + s.block_size
    → 0 < fuel
    → (s.tx.bytes_sent ≡ s.tx.data_packet_max_size → length s.tx.file.unread + 1 < fuel)
    → Ends (block_loop fuel h s)
unfolding block_loop
block_loop-Ends zero h s bs max f need = absurd (omega arith)
block_loop-Ends (suc fuel) h s bs max f need =
    elim (Bool-cases (s.tx.bytes_sent == s.tx.data_packet_max_size)) [
      | inl e ↦
          rw (e, Ends, block_loop)
            (after_round h s fuel (block_round h s) (block_round-Leaves h s) λ t b.
              let (size, same_max, unread, sent) = left-load_block h s t b in
              block_loop-Ends fuel h t (omega arith) (omega arith)
                (omega (arith, need ((==_iff _ _).0 e)))
                (λ full. omega (arith, need ((==_iff _ _).0 e))))
      | inr e ↦ rw (e, Ends, block_loop) tt
    ]

-- `tftp_transmit_file` returns, whatever the network and the disk do, if the block size is positive
-- and the packet size is the one that `tftp_fill_transfer_data` sets.
pub transmit_total :
    (h : Host) (s : Session)
    → 0 < s.block_size
    → s.tx.data_packet_max_size ≡ sizeof_packet + s.block_size
    → (r : Bool × Session) × (tftp_transmit_file h s ≡ some r)
unfolding tftp_transmit_file begin_transmission
transmit_total h s bs max =
    Ends-some (tftp_transmit_file h s) (elim (Bool-cases (check_sigterm h s.net).0) [
      | inl e ↦ rw e tt
      | inr e ↦ rw e (
          block_loop-Ends (length s.tx.file.unread + 2) h _ bs max (omega arith) (λ _. omega arith))
    ])
