-- ===== src/Transfer/Receive/Lossless.antt =====
-- A reception on a quiet network where the blocks of a file arrive in order.
use rted_tftp.Base.{
  ℕ, zero, suc, ◌+◌, ◌/◌, ◌<◌, ◌≡◌, refl, Bool, true, false, List, [], ◌∷◌, ◌++◌, map, length,
  Bytes, ◌==◌, arith, ==_iff, ◌∙◌, sym, ap, append-nil, append_assoc,
}
use rted_tftp.Packet.{ack_packet}
use rted_tftp.Net.{Address, Host, Arrival, packet, Datagram, deliver, tftp_send_ack}
use rted_tftp.Net.Quiet.{IsQuiet, check_sigterm-IsQuiet, sendto-IsQuiet, recvfrom_packet}
use rted_tftp.Transfer.{Session}
use rted_tftp.Transfer.Blocks.{
  chunk, number_of, block_packet, block_packets, ack_packets, block_count, full_chunk, next_block,
}
use rted_tftp.Transfer.Receive.{
  got_block, store_packet, on_arrival, receive_once, acknowledge_block, again, ended, end_of_round,
  finished, receive_loop,
}
use rted_tftp.Transfer.Receive.Blocks.{
  Receiving, Taken, taken, refused, take_block, refuse_empty, net-Receiving,
}

module _ (h : Host) (bs : ℕ) (file : Bytes) (from : Address) (rest : List Arrival)
    (positive : 0 < bs) (small : bs < 65536) where
  -- Before block `i` arrives, with `k` blocks to come.
  pub record Ready (i k : ℕ) (s : Session) : Type 0 where
    pub receiving : Receiving bs file i s
    pub quiet : IsQuiet s.net
    pub inbox : s.net.inbox ≡ map (packet from) (block_packets h.endian bs file i k) ++ rest

  abbrev pub to_peer : Bytes → Datagram
  to_peer b = record { to = from; bytes = b }

  module _ (i k : ℕ) (s : Session) (v : Ready i (suc k) s) where
    abbrev pub arrived : Session
    arrived = record s {
      net = record s.net {
        inbox = map (packet from) (block_packets h.endian bs file (i + 1) k) ++ rest;
        peer_address = from;
      };
    }

    abbrev pub arrived-Receiving : Receiving bs file i arrived
    arrived-Receiving = net-Receiving bs file i s arrived.net v.receiving

    once_is :
        receive_once h s ≡ on_arrival h arrived (packet from (block_packet h.endian bs file i))
    unfolding receive_once
    once_is = rw (recvfrom_packet s.net from _ _ v.inbox)

    abbrev pub accepted : Session
    accepted = taken h bs file i arrived small arrived-Receiving

    arrived-IsQuiet : IsQuiet arrived.net
    arrived-IsQuiet = record { no_signal = v.quiet.no_signal; no_loss = v.quiet.no_loss }

    accepted_net : accepted.net ≡ deliver arrived.net (ack_packet h.endian (number_of i))
    unfolding taken acknowledge_block store_packet tftp_send_ack
    accepted_net =
        rw (v.receiving.number) (ap (λ r. r.1) (sendto-IsQuiet arrived.net _ arrived-IsQuiet))

    -- A block that is not empty.
    module _ (filled : 0 < length (chunk bs file i)) where
      pub accepted-Taken : Taken bs file i accepted
      accepted-Taken = (take_block h bs file i arrived small arrived-Receiving from filled).1

      accepted_once : receive_once h s ≡ got_block accepted
      accepted_once =
          once_is ∙ (take_block h bs file i arrived small arrived-Receiving from filled).0

      accepted-IsQuiet : IsQuiet accepted.net
      accepted-IsQuiet =
          rw accepted_net
            (unfold deliver in record { no_signal = v.quiet.no_signal; no_loss = v.quiet.no_loss })

      full_round :
          length (chunk bs file i) ≡ bs → end_of_round h (receive_once h s) ≡ again accepted
      unfolding end_of_round
      full_round full =
          let t = accepted-Taken in
          rw (
            accepted_once,
            (==_iff accepted.tx.bytes_received accepted.tx.data_packet_max_size).1
                (omega (arith, t.received, t.max_size)),
            check_sigterm-IsQuiet h accepted.net accepted-IsQuiet,
          )

      pub last_round :
          length (chunk bs file i) < bs → end_of_round h (receive_once h s) ≡ ended true accepted
      unfolding end_of_round
      last_round short =
          let t = accepted-Taken in
          let test : (accepted.tx.bytes_received == accepted.tx.data_packet_max_size) ≡ false =
            ground (arith, t.received, t.max_size, short) in
          rw (accepted_once, test)

      -- The acknowledgement goes out, and the next block is awaited.
      pub accepted_sent :
          accepted.net.sent ≡ s.net.sent ++ to_peer (ack_packet h.endian (number_of i)) ∷ []
      accepted_sent = rw accepted_net (unfold deliver in refl)

      accepted_inbox :
          accepted.net.inbox ≡ map (packet from) (block_packets h.endian bs file (i + 1) k) ++ rest
      accepted_inbox = rw accepted_net (unfold deliver in refl)

      accepted-Ready : length (chunk bs file i) ≡ bs → Ready (i + 1) k accepted
      accepted-Ready full =
          let t = accepted-Taken in
          record {
            receiving = record {
              max_size = t.max_size;
              number = t.number;
              written = t.written;
              room = t.room;
              buffer = t.buffer;
              in_file = next_block bs file i positive full;
            };
            quiet = accepted-IsQuiet;
            inbox = accepted_inbox;
          }

    -- The last block is empty.
    pub refused_round :
        length (chunk bs file i) ≡ 0
        → (t : Session) × (end_of_round h (receive_once h s) ≡ ended false t)
          × (t.tx.file.written ≡ s.tx.file.written)
    unfolding end_of_round
    refused_round empty =
        let (e, same) = refuse_empty h bs file i arrived small arrived-Receiving from empty in
        (refused h bs file i arrived small arrived-Receiving, rw (once_is, e), same)

  loop_again :
      (fuel : ℕ) (s t : Session)
      → end_of_round h (receive_once h s) ≡ again t
      → receive_loop (suc fuel) h s ≡ receive_loop fuel h t
  unfolding receive_loop
  loop_again fuel s t e = rw (e, receive_loop)

  pub loop_ended :
      (fuel : ℕ) (ok : Bool) (s t : Session)
      → end_of_round h (receive_once h s) ≡ ended ok t
      → receive_loop (suc fuel) h s ≡ finished ok t
  unfolding receive_loop
  loop_ended fuel ok s t e = rw (e, receive_loop)

  -- All blocks but the last are taken, in order.
  pub receive_full :
      (k i fuel : ℕ) (s : Session)
      → i + suc k ≡ block_count bs file
      → k < fuel
      → Ready i (suc k) s
      → (t : Session) × (fuel' : ℕ) × (receive_loop fuel h s ≡ receive_loop (suc fuel') h t)
        × Ready (length file / bs) 1 t
        × (t.net.sent ≡ s.net.sent ++ map to_peer (ack_packets h.endian i k))
  receive_full k i zero s n f v = absurd (omega arith)
  receive_full zero i (suc fuel) s n f v =
      let here : i ≡ length file / bs = omega arith in
      (s, fuel, refl, rw here at v, sym (append-nil s.net.sent))
  receive_full (suc k) i (suc fuel) s n f v =
      let full = full_chunk bs file i positive (omega arith) in
      let filled : 0 < length (chunk bs file i) = omega (arith, full) in
      let (t, fuel', e, w, sent) =
        receive_full k (i + 1) fuel (accepted i (suc k) s v) (omega arith) (omega arith)
          (accepted-Ready i (suc k) s v filled full) in
      (
        t,
        fuel',
        loop_again fuel s _ (full_round i (suc k) s v filled full) ∙ e,
        w,
        sent
            ∙ ap (λ l. l ++ map to_peer (ack_packets h.endian (i + 1) k))
                (accepted_sent i (suc k) s v filled)
            ∙ append_assoc s.net.sent (to_peer (ack_packet h.endian (number_of i)) ∷ [])
                (map to_peer (ack_packets h.endian (i + 1) k)),
      )
