-- ===== src/Transfer/Receive/Safety/Rounds.antt =====
-- One round of a reception keeps what was written a prefix of the file, whatever comes in.
use native.Mathlib.Decide.{ℕ_discrete}
use rted_tftp.Base.{
  ℕ, ◌+◌, ◌*◌, ◌<◌, ◌≤◌, ◌≡◌, ◌≢◌, refl, ap, drop, ◌⊎◌, inl, inr, false, List, [], ◌∷◌, length,
  take, Bytes, ◌==◌, arith, ltb, Bool-cases, ==_iff, ◌∙◌, sym, subst, All, take_all,
}
use rted_tftp.Protocol.{sizeof_packet, max_retry_count, tftp_data, tftp_error}
use rted_tftp.Packet.{Endian, ntohs, raw_opcode}
use rted_tftp.Packet.Layout.{length-overlay}
use rted_tftp.Net.{Address, Host, Arrival, packet, timed_out, failed, recvfrom, check_sigterm}
use rted_tftp.Transfer.{Session}
use rted_tftp.Transfer.Blocks.{
  chunk, number_of, block_packet, block_count, length-chunk, next_block, after_last,
}
use rted_tftp.Transfer.Receive.{
  Received, got_block, waiting, returned, overread, count_failure, store_packet, on_arrival,
  receive_once, print_error, is_terminated, Round, again, ended, past_buffer, end_of_round,
}
use rted_tftp.Transfer.Receive.Blocks.{
  Receiving, Taken, take_block, refuse_empty, other_packet, same_opcode, other_block, net-Receiving,
}

-- What may arrive: a block of the file, any number of times and in any order, a datagram with a whole
-- header that is no DATA packet, or a failure.
abbrev pub Genuine : Endian → ℕ → Bytes → Arrival → Type 0
Genuine e bs file (packet from b) =
    ((i : ℕ) × (i < block_count bs file) × (b ≡ block_packet e bs file i))
    ⊎ ((4 ≤ length b) × (ntohs e (raw_opcode e b) ≢ tftp_data))
Genuine e bs file timed_out = Unit
Genuine e bs file failed = Unit

-- Some blocks of the file have been written, in order.
abbrev pub HasPrefix : ℕ → Bytes → Session → Type 0
HasPrefix bs file s = (j : ℕ) × (s.tx.file.written ≡ take (j * bs) file)

-- An ERROR packet is in the buffer whose message is not terminated there: printing it reads on.
abbrev pub PrintsPast : Host → Session → Type 0
PrintsPast h s =
    (ntohs h.endian (raw_opcode h.endian s.tx.data_packet) ≡ tftp_error)
    × (is_terminated (drop sizeof_packet s.tx.data_packet) ≡ false)

abbrev pub SafeReceived : Host → ℕ → Bytes → Received → Type 0
SafeReceived h bs file (got_block t) = (i : ℕ) × (i < block_count bs file) × Taken bs file i t
SafeReceived h bs file (waiting t) = (i : ℕ) × Receiving bs file i t
SafeReceived h bs file (returned t) = HasPrefix bs file t
SafeReceived h bs file (overread t) = HasPrefix bs file t × PrintsPast h t

abbrev pub SafeRound : Host → ℕ → Bytes → Round → Type 0
SafeRound h bs file (again t) = (i : ℕ) × Receiving bs file i t
SafeRound h bs file (ended ok t) = HasPrefix bs file t × ((ok ≡ false) ⊎ (t.tx.file.written ≡ file))
SafeRound h bs file (past_buffer t) = HasPrefix bs file t × PrintsPast h t

module _ (h : Host) (bs : ℕ) (file : Bytes) (positive : 0 < bs) (small : bs < 65536)
    (few : block_count bs file ≤ 65536) where
  failure-Safe :
      (i : ℕ) (s : Session) → Receiving bs file i s → SafeReceived h bs file (count_failure h s)
  unfolding count_failure
  failure-Safe i s v = elim (Bool-cases (ltb s.tx.resend_counter max_retry_count)) [
    | inl e ↦ rw e (
      i,
      record {
        max_size = v.max_size;
        number = v.number;
        written = v.written;
        room = v.room;
        buffer = v.buffer;
        in_file = v.in_file;
      },
    )
    | inr e ↦ rw e (i, v.written)
  ]

  stored-Receiving :
      (i : ℕ) (s : Session) (b : Bytes)
      → Receiving bs file i s
      → Receiving bs file i (store_packet s b)
  unfolding store_packet
  stored-Receiving i s b v = record {
    max_size = v.max_size;
    number = v.number;
    written = v.written;
    room = v.room;
    buffer = length-overlay s.tx.data_packet b ∙ v.buffer;
    in_file = v.in_file;
  }

  next-Safe :
      (i : ℕ) (s : Session) (from : Address)
      → Receiving bs file i s
      → SafeReceived h bs file (on_arrival h s (packet from (block_packet h.endian bs file i)))
  next-Safe i s from v = elim (Bool-cases (length (chunk bs file i) == 0)) [
    | inl empty ↦
        let (e, same) = refuse_empty h bs file i s small v from ((==_iff _ 0).0 empty) in
        rw e (i, same ∙ v.written)
    | inr filled ↦
        let (e, t) = take_block h bs file i s small v from (ground arith) in rw e (i, v.in_file, t)
  ]

  block-Safe :
      (i j : ℕ) (s : Session) (from : Address)
      → Receiving bs file i s
      → j < block_count bs file
      → SafeReceived h bs file (on_arrival h s (packet from (block_packet h.endian bs file j)))
  block-Safe i j s from v in_file = elim (ℕ_discrete j i) [
    | yes same ↦ rw same (next-Safe i s from v)
    | no different ↦
        rw
          (other_block h bs s from (number_of j) (chunk bs file j) v.buffer (omega arith)
            (λ e. different (omega (arith, v.number, v.in_file))))
          (i, stored-Receiving i s (block_packet h.endian bs file j) v)
  ]

  printed-Safe :
      (i : ℕ) (s : Session)
      → Receiving bs file i s
      → ntohs h.endian (raw_opcode h.endian s.tx.data_packet) ≡ tftp_error
      → SafeReceived h bs file (print_error s)
  unfolding print_error
  printed-Safe i s v error =
      elim (Bool-cases (is_terminated (drop sizeof_packet s.tx.data_packet))) [
        | inl e ↦ rw e (i, v.written)
        | inr e ↦ rw e ((i, v.written), (error, e))
      ]

  other-Safe :
      (i : ℕ) (s : Session) (from : Address) (b : Bytes)
      → Receiving bs file i s
      → 4 ≤ length b
      → ntohs h.endian (raw_opcode h.endian b) ≢ tftp_data
      → SafeReceived h bs file (on_arrival h s (packet from b))
  other-Safe i s from b v whole other =
      rw (other_packet h s from b (omega (arith, v.buffer)) whole other)
        (elim (Bool-cases (ntohs h.endian (raw_opcode h.endian b) == tftp_error)) [
          | inl e ↦ rw e (
              printed-Safe i (store_packet s b) (stored-Receiving i s b v) (
                unfold store_packet in
                ap (ntohs h.endian)
                  (same_opcode h.endian s.tx.data_packet b (omega (arith, v.buffer)) whole)
                ∙ (==_iff _ _).0 e))
          | inr e ↦ rw e (i, stored-Receiving i s b v)
        ])

  arrival-Safe :
      (i : ℕ) (s : Session) (a : Arrival)
      → Receiving bs file i s
      → Genuine h.endian bs file a
      → SafeReceived h bs file (on_arrival h s a)
  unfolding on_arrival
  arrival-Safe i s (packet from b) v (inl (j, in_file, e)) =
      subst (λ c. SafeReceived h bs file (on_arrival h s (packet from c))) (sym e)
        (block-Safe i j s from v in_file)
  arrival-Safe i s (packet from b) v (inr (whole, other)) = other-Safe i s from b v whole other
  arrival-Safe i s timed_out v g = failure-Safe i s v
  arrival-Safe i s failed v g = failure-Safe i s v

  pub round-Safe :
      (r : Received) → SafeReceived h bs file r → SafeRound h bs file (end_of_round h r)
  unfolding end_of_round
  round-Safe (got_block t) (i, in_file, v) =
      elim (Bool-cases (t.tx.bytes_received == t.tx.data_packet_max_size)) [
        | inl full ↦ rw full (elim (Bool-cases (check_sigterm h t.net).0) [
          | inl e ↦ rw e ((i + 1, v.written), inl refl)
          | inr e ↦ rw e (
            i + 1,
            record {
              max_size = v.max_size;
              number = v.number;
              written = v.written;
              room = v.room;
              buffer = v.buffer;
              in_file =
                  next_block bs file i positive
                    (omega (arith, (==_iff _ _).0 full, v.received, v.max_size));
            },
          )
        ])
        | inr short ↦ rw short (
          (i + 1, v.written),
          inr (
              v.written
              ∙ take_all ((i + 1) * bs) file (
                  after_last bs file i
                    (ground (arith, v.received, v.max_size, short, length-chunk bs file i)))),
        )
      ]
  round-Safe (waiting t) v = v
  round-Safe (returned t) v = (v, inl refl)
  round-Safe (overread t) v = v

  pub once-Safe :
      (inbox : List Arrival) (i : ℕ) (s : Session)
      → s.net.inbox ≡ inbox
      → All (Genuine h.endian bs file) inbox
      → Receiving bs file i s
      → SafeReceived h bs file (receive_once h s)
  unfolding receive_once recvfrom
  once-Safe [] i s e g v = rw (e, receive_once, recvfrom) (arrival-Safe i s failed v tt)
  once-Safe (packet from b ∷ rest) i s e g v =
      rw (e, receive_once, recvfrom)
        (arrival-Safe i _ (packet from b) (net-Receiving bs file i s _ v) g.0)
  once-Safe (timed_out ∷ rest) i s e g v =
      rw (e, receive_once, recvfrom) (arrival-Safe i _ timed_out (net-Receiving bs file i s _ v) tt)
  once-Safe (failed ∷ rest) i s e g v =
      rw (e, receive_once, recvfrom) (arrival-Safe i _ failed (net-Receiving bs file i s _ v) tt)
