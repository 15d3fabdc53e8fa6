-- ===== src/Transfer/Receive/Ending.antt =====
-- How a reception ends when every block arrives in order: with success, unless the last block is
-- empty.
use native.Mathlib.Nat.{mod-lt, div-add-mod}
use rted_tftp.Base.{
  ℕ, zero, suc, ◌+◌, ◌*◌, ◌/◌, ◌%◌, ◌<◌, ◌≤◌, ◌≡◌, refl, true, false, List, [], ◌∷◌, ◌++◌, map,
  length, take, Bytes, arith, ◌∙◌, sym, ap, take_all, map-append, append_assoc,
}
use rted_tftp.Packet.{Endian, ack_packet}
use rted_tftp.Net.{Address, Host, Arrival, packet, Datagram}
use rted_tftp.Net.Quiet.{IsQuiet, check_sigterm-IsQuiet}
use rted_tftp.Transfer.{Session, IsReady}
use rted_tftp.Transfer.Blocks.{
  chunk, number_of, block_packets, ack_packets, block_count, last_chunk, after_last,
}
use rted_tftp.Transfer.Receive.{finished, receive_loop, begin_reception, tftp_receive_file}
use rted_tftp.Transfer.Receive.Blocks.{begin-Receiving}
use rted_tftp.Transfer.Receive.Lossless.{
  Ready, accepted, accepted_sent, accepted-Taken, last_round, refused_round, loop_ended,
  receive_full,
}

ack_packets-concat :
    (e : Endian) (k i j : ℕ)
    → j ≡ i + k
    → ack_packets e i (suc k) ≡ ack_packets e i k ++ ack_packet e (number_of j) ∷ []
ack_packets-concat e zero i j at = let same : j ≡ i = omega arith in rw same refl
ack_packets-concat e (suc k) i j at =
    ap (◌∷◌ (ack_packet e (number_of i))) (ack_packets-concat e k (i + 1) j (omega arith))

arrivals-ge :
    (e : Endian) (bs : ℕ) (file : Bytes) (from : Address) (rest : List Arrival) (k i : ℕ)
    → k ≤ length (map (packet from) (block_packets e bs file i k) ++ rest)
arrivals-ge e bs file from rest zero i = omega arith
arrivals-ge e bs file from rest (suc k) i = omega (arith, arrivals-ge e bs file from rest k (i + 1))

-- The reception succeeds, has written the file and acknowledged each of its blocks in turn.
abbrev pub Receives : Host → ℕ → Bytes → Address → Session → Type 0
Receives h bs file from s =
    (t : Session) × (tftp_receive_file h s ≡ finished true t)
    × (t.tx.file.written ≡ file)
    × (t.net.sent
        ≡ s.net.sent
          ++ map (λ b. record { to = from; bytes = b })
              (ack_packets h.endian 0 (block_count bs file)))

all_blocks : (n d : ℕ) → n % d ≡ 0 → n ≤ n / d * d
all_blocks n d h = grind (arith, div-add-mod n d)

module _ (h : Host) (bs : ℕ) (file : Bytes) (from : Address) (rest : List Arrival) (s : Session)
    (positive : 0 < bs) (small : bs < 65536) (ready : IsReady bs s) (fresh : s.tx.file.written ≡ [])
    (room : length file ≤ s.tx.file.room) (quiet : IsQuiet s.net)
    (inbox : s.net.inbox
      ≡ map (packet from) (block_packets h.endian bs file 0 (block_count bs file)) ++ rest) where
  begins : tftp_receive_file h s ≡ receive_loop (length s.net.inbox + 5 + 1) h (begin_reception s)
  unfolding tftp_receive_file
  begins = rw (check_sigterm-IsQuiet h s.net quiet, check_sigterm-IsQuiet h s.net quiet)

  begin-Ready : Ready h bs file from rest positive small 0 (block_count bs file) (begin_reception s)
  begin-Ready = record {
    receiving = begin-Receiving bs file s s.net ready fresh room;
    quiet = unfold begin_reception in quiet;
    inbox = unfold begin_reception in inbox;
  }

  to_last :
      (t : Session) × (fuel : ℕ) × (tftp_receive_file h s ≡ receive_loop (suc fuel) h t)
      × Ready h bs file from rest positive small (length file / bs) 1 t
      × (t.net.sent
          ≡ s.net.sent
            ++ map
                (λ b. record { to = from; bytes = b })
                (ack_packets h.endian 0 (length file / bs)))
  to_last =
      let enough = arrivals-ge h.endian bs file from rest (block_count bs file) 0 in
      let (t, fuel, e, v, sent) =
        receive_full h bs file from rest positive small (length file / bs) 0
          (length s.net.inbox + 5 + 1) (begin_reception s) (omega arith) (rw inbox (omega arith))
          begin-Ready in
      (t, fuel, begins ∙ e, v, unfold begin_reception in sent)

  whole : (n : ℕ) → length file ≤ n → take n file ≡ file
  whole n le = take_all n file le

  -- If no signal arrives, every `sendto` succeeds, the disk has room, and the blocks of a file arrive
  -- in order, each once, then a file whose size is no multiple of the block size is received:
  -- `tftp_receive_file` returns true, has written the file, and has acknowledged each block in turn.
  pub receive_lossless : 0 < length file % bs → Receives h bs file from s
  receive_lossless uneven =
      let q = length file / bs in
      let (t, fuel, e, v, sent) = to_last in
      let size = last_chunk bs file q positive (omega arith) in
      let filled : 0 < length (chunk bs file q) = omega (arith, size) in
      let short : length (chunk bs file q) < bs =
        omega (arith, size, mod-lt (length file) positive) in
      let u = accepted h bs file from rest positive small q 0 t v in
      (
        u,
        e
            ∙ loop_ended h bs file from rest positive small fuel true t u
                (last_round h bs file from rest positive small q 0 t v filled short),
        (accepted-Taken h bs file from rest positive small q 0 t v filled).written
            ∙ whole ((q + 1) * bs) (after_last bs file q short),
        accepted_sent h bs file from rest positive small q 0 t v filled
            ∙ ap (λ l. l ++ to_peer (ack_packet h.endian (number_of q)) ∷ []) sent
            ∙ append_assoc s.net.sent (map to_peer (ack_packets h.endian 0 q))
                (to_peer (ack_packet h.endian (number_of q)) ∷ [])
            ∙ ap (◌++◌ s.net.sent) (
                sym (
                  map-append to_peer (ack_packets h.endian 0 q)
                    (ack_packet h.endian (number_of q) ∷ [])))
            ∙ ap (λ l. s.net.sent ++ map to_peer l)
                (sym (ack_packets-concat h.endian q 0 q (omega arith))),
      )
    where
      to_peer : Bytes → Datagram
      to_peer b = record { to = from; bytes = b }

  -- Under the same conditions a file whose size is a multiple of the block size, the empty file
  -- among them, is not received: its last block is empty, and although all of the file has been
  -- written by then, `tftp_receive_file` returns false.
  pub receive_multiple_fails :
      length file % bs ≡ 0
      → (t : Session) × (tftp_receive_file h s ≡ finished false t) × (t.tx.file.written ≡ file)
  receive_multiple_fails even =
      let q = length file / bs in
      let (t, fuel, e, v, sent) = to_last in
      let size = last_chunk bs file q positive (omega arith) in
      let (u, stops, same) =
        refused_round h bs file from rest positive small q 0 t v (omega (arith, size)) in
      (
        u,
        e ∙ loop_ended h bs file from rest positive small fuel false t u stops,
        same ∙ v.receiving.written ∙ whole (q * bs) (all_blocks (length file) bs even),
      )
