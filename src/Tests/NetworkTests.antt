-- ===== src/Tests/NetworkTests.antt =====
-- Transfers over networks that lose, repeat and reorder.
use rted_tftp.Base.{◌≡◌, refl, inl, true, List, [], ◌∷◌, ◌++◌, some, codes, arith, none}
use rted_tftp.Packet.{little, big, error_packet}
use rted_tftp.Net.{Arrival, packet, timed_out, failed, Datagram}
use rted_tftp.Transfer.{Session}
use rted_tftp.Transfer.Blocks.{block_packet}
use rted_tftp.Transfer.Transmit.{tftp_transmit_file}
use rted_tftp.Transfer.Transmit.Lossless.{transmit_lossless}
use rted_tftp.Transfer.Transmit.Genuine.{SendsFile, transmit-SendsFile}
use rted_tftp.Transfer.Transmit.Missed.{error_packet-IsUnheard}
use rted_tftp.Transfer.Transmit.Unheard.{ReportsSuccess, transmit_unheard}
use rted_tftp.Transfer.Transmit.Retried.{Retries, answers, transmit_retried}
use rted_tftp.Transfer.Receive.{tftp_receive_file}
use rted_tftp.Transfer.Receive.Safety.{EndsSafely}
use rted_tftp.Transfer.Safety.{transfer_safe}
use rted_tftp.Tests.TransferTests.{
  server, client, server_address, client_address, nine, source, target, sender, receiver, acks,
  session-IsReady, session-IsQuiet,
}

abbrev noise : List Arrival
noise = timed_out ∷ packet server_address (0 ∷ 9 ∷ []) ∷ failed ∷ acks

transmit-SendsFile_example : SendsFile little 8 nine (tftp_transmit_file server (sender noise))
transmit-SendsFile_example =
    transmit-SendsFile server 8 (sender noise) (omega arith)
      (session-IsReady client_address (source nine) noise) refl

-- An error, and nothing, five times.
abbrev refusal : Arrival
refusal = packet client_address (error_packet big 0 (codes "Writing to file failed") none)

abbrev refusals : List Arrival
refusals =
    refusal ∷ timed_out ∷ refusal ∷ timed_out ∷ refusal ∷ timed_out ∷ refusal ∷ timed_out ∷ refusal
    ∷ timed_out ∷ []

transmit_unheard_example : ReportsSuccess server 8 (sender refusals)
transmit_unheard_example =
    let u = error_packet-IsUnheard big 0 (codes "Writing to file failed") none client_address in
    transmit_unheard server 8 (sender refusals) (omega arith)
      (session-IsReady client_address (source nine) refusals) refl
      (session-IsQuiet client_address (source nine) refusals)
      (u, (tt, (u, (tt, (u, (tt, (u, (tt, (u, (tt, tt)))))))))) (omega arith)

-- The first block is lost twice, the second one gets an error first.
abbrev two_gaps : List (List Arrival)
two_gaps = (timed_out ∷ timed_out ∷ []) ∷ (refusal ∷ []) ∷ []

abbrev late_acks : List Arrival
late_acks = answers little client_address 0 two_gaps ++ failed ∷ []

transmit_retried_example : Retries server 8 two_gaps (failed ∷ []) (sender late_acks)
transmit_retried_example =
    let u = error_packet-IsUnheard big 0 (codes "Writing to file failed") none client_address in
    transmit_retried server 8 client_address two_gaps (failed ∷ []) (sender late_acks) (omega arith)
      (session-IsReady client_address (source nine) late_acks) refl
      (session-IsQuiet client_address (source nine) late_acks) refl
      ((omega arith, (tt, (tt, tt))), ((omega arith, (u, tt)), tt)) refl

ends :
    (t : Session) × (tftp_transmit_file server (sender acks) ≡ some (true, t))
    × (t.net.sent
        ≡ record { to = client_address; bytes = block_packet little 8 nine 0 }
          ∷ record { to = client_address; bytes = block_packet little 8 nine 1 }
          ∷ [])
ends =
    let (t, e, log, rest) =
      transmit_lossless server 8 client_address [] (sender acks) (omega arith)
        (session-IsReady client_address (source nine) acks) refl
        (session-IsQuiet client_address (source nine) acks) refl refl in
    (t, e, log)

-- The second block comes first, the first one twice.
abbrev carried : List Arrival
carried =
    packet server_address (block_packet little 8 nine 1)
    ∷ packet server_address (block_packet little 8 nine 0)
    ∷ timed_out
    ∷ packet server_address (block_packet little 8 nine 0)
    ∷ []

transfer_safe_example : EndsSafely client 8 nine (tftp_receive_file client (receiver carried))
transfer_safe_example =
    transfer_safe server client 8 (sender acks) (receiver carried) ends.0 true (omega arith)
      (omega arith) (omega arith) (session-IsReady client_address (source nine) acks)
      (session-IsReady server_address target carried) refl refl (omega arith) ends.1
      (
        inl (first ∷ [], second, [], ends.2, refl),
        (
          inl ([], first, second ∷ [], ends.2, refl),
          (tt, (inl ([], first, second ∷ [], ends.2, refl), tt)),
        ),
      )
  where
    first : Datagram
    first = record { to = client_address; bytes = block_packet little 8 nine 0 }

    second : Datagram
    second = record { to = client_address; bytes = block_packet little 8 nine 1 }
