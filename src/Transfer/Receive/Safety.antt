-- ===== src/Transfer/Receive/Safety.antt =====
-- Whatever the network loses, repeats, reorders or adds, what is written is the start of the file
-- that the peer sends, and a reception that succeeds has written all of it.
pub mod Rounds
use native.Mathlib.Decide.{ℕ_discrete}
use rted_tftp.Base.{
  ℕ, zero, suc, ◌+◌, ◌*◌, ◌<◌, ◌≤◌, ◌≡◌, ◌≢◌, refl, ◌⊎◌, inl, inr, Bool, false, List, [], ◌∷◌,
  length, take, Bytes, ◌==◌, arith, ltb, Bool-cases, ==_iff, ◌∙◌, sym, subst, All, take_all,
}
use rted_tftp.Protocol.{max_retry_count, tftp_data, tftp_error}
use rted_tftp.Packet.{Endian, ntohs, raw_opcode}
use rted_tftp.Packet.Layout.{length-overlay}
use rted_tftp.Net.{Address, Host, Net, Arrival, packet, timed_out, failed, recvfrom, check_sigterm}
use rted_tftp.Net.Frame.{check_sigterm-inbox}
use rted_tftp.Transfer.{Session, IsReady}
use rted_tftp.Transfer.Blocks.{
  chunk, number_of, block_packet, block_count, length-chunk, next_block, after_last,
}
use rted_tftp.Transfer.Receive.{
  Received, got_block, waiting, returned, overread, count_failure, store_packet, on_arrival,
  receive_once, Round, again, ended, past_buffer, end_of_round, Outcome, finished, overran, spent,
  receive_loop, begin_reception, tftp_receive_file,
}
use rted_tftp.Transfer.Receive.Total.{Advances, round-Advances, receive_total}
use rted_tftp.Transfer.Receive.Blocks.{
  Receiving, Taken, take_block, refuse_empty, other_packet, other_block, net-Receiving,
  begin-Receiving,
}
pub use rted_tftp.Transfer.Receive.Safety.Rounds.{Genuine, HasPrefix, PrintsPast}
use rted_tftp.Transfer.Receive.Safety.Rounds.{once-Safe, round-Safe, SafeReceived, SafeRound}

abbrev SafeOutcome : Host → ℕ → Bytes → Outcome → Type 0
SafeOutcome h bs file (finished ok t) =
    HasPrefix bs file t × ((ok ≡ false) ⊎ (t.tx.file.written ≡ file))
SafeOutcome h bs file (overran t) = HasPrefix bs file t × PrintsPast h t
SafeOutcome h bs file spent = Unit

module _ (h : Host) (bs : ℕ) (file : Bytes) (positive : 0 < bs) (small : bs < 65536)
    (few : block_count bs file ≤ 65536) where
  loop_step :
      (inbox : List Arrival) (counter fuel : ℕ) (r : Round)
      → SafeRound h bs file r
      → Advances inbox counter r
      → ((t : Session)
          → Advances inbox counter (again t)
          → (i : ℕ) → Receiving bs file i t
          → SafeOutcome h bs file (receive_loop fuel h t))
      → SafeOutcome h bs file (elim r [
        | again t ↦ receive_loop fuel h t
        | ended outcome t ↦ finished outcome t
        | past_buffer t ↦ overran t
      ])
  loop_step inbox counter fuel (again t) (i, v) a rec = rec t a i v
  loop_step inbox counter fuel (ended ok t) v a rec = v
  loop_step inbox counter fuel (past_buffer t) v a rec = v

  loop-Safe :
      (fuel : ℕ) (inbox : List Arrival) (i : ℕ) (s : Session)
      → s.net.inbox ≡ inbox
      → All (Genuine h.endian bs file) inbox
      → Receiving bs file i s
      → SafeOutcome h bs file (receive_loop fuel h s)
  unfolding receive_loop
  loop-Safe zero inbox i s e g v = tt
  loop-Safe (suc fuel) [] i s e g v =
      loop_step [] s.tx.resend_counter fuel _
        (round-Safe h bs file positive small few _
          (once-Safe h bs file positive small few [] i s e g v))
        (round-Advances h s [] e) λ t a j w. loop-Safe fuel [] j t a.0 tt w
  loop-Safe (suc fuel) (x ∷ rest) i s e g v =
      loop_step (x ∷ rest) s.tx.resend_counter fuel _
        (round-Safe h bs file positive small few _
          (once-Safe h bs file positive small few (x ∷ rest) i s e g v))
        (round-Advances h s (x ∷ rest) e) λ t a j w. loop-Safe fuel rest j t a g.1 w

-- A reception of the file comes to an end within its buffer, or prints the message of an ERROR packet
-- that is not terminated there; what it has written is a prefix of the file, the whole of it where it
-- reports success.
abbrev pub EndsSafely : Host → ℕ → Bytes → Outcome → Type 0
EndsSafely h bs file o =
    ((ok : Bool) × (t : Session) × (o ≡ finished ok t)
      × HasPrefix bs file t
      × ((ok ≡ false) ⊎ (t.tx.file.written ≡ file)))
    ⊎ ((t : Session) × (o ≡ overran t) × HasPrefix bs file t × PrintsPast h t)

not_spent :
    (h : Host) (bs : ℕ) (file : Bytes) (o : Outcome)
    → SafeOutcome h bs file o
    → o ≢ spent
    → EndsSafely h bs file o
not_spent h bs file (finished ok t) (p, whole) n = inl (ok, t, refl, p, whole)
not_spent h bs file (overran t) (p, past) n = inr (t, refl, p, past)
not_spent h bs file spent v n = absurd (n refl)

-- Let the peer send a file of at most 65536 blocks, and let the network lose, repeat and reorder its
-- packets and add datagrams of at least four bytes that are no DATA packets. If the disk has room for
-- the file, then `tftp_receive_file` ends, without reading past its buffer except to print the message
-- of an ERROR packet that has no terminator in the buffer; what it has written is some number of whole
-- blocks from the start of the file (or all of it), and if it returns true it has written the whole
-- file and nothing else.
pub receive_safe :
    (h : Host) (bs : ℕ) (file : Bytes) (s : Session)
    → 0 < bs
    → bs < 65536
    → block_count bs file ≤ 65536
    → IsReady bs s
    → s.tx.file.written ≡ []
    → length file ≤ s.tx.file.room
    → All (Genuine h.endian bs file) s.net.inbox
    → EndsSafely h bs file (tftp_receive_file h s)
unfolding tftp_receive_file
receive_safe h bs file s positive small few r fresh room g =
    not_spent h bs file (tftp_receive_file h s) safe (receive_total h s)
  where
    nothing : (n : Net) → HasPrefix bs file (record s { net = n })
    nothing n = (0, let none_yet : 0 * bs ≡ 0 = omega arith in rw none_yet fresh)

    safe : SafeOutcome h bs file (tftp_receive_file h s)
    safe = elim (Bool-cases (check_sigterm h s.net).0) [
      | inl e ↦ rw e (nothing (check_sigterm h s.net).1, inl refl)
      | inr e ↦ rw e (elim (Bool-cases (check_sigterm h (check_sigterm h s.net).1).0) [
        | inl f ↦ rw f (
          unfold begin_reception in nothing (check_sigterm h (check_sigterm h s.net).1).1,
          inl refl,
        )
        | inr f ↦ rw f (
            loop-Safe h bs file positive small few _ s.net.inbox 0 _
              (unfold begin_reception in
                check_sigterm-inbox h (check_sigterm h s.net).1 ∙ check_sigterm-inbox h s.net)
              g (begin-Receiving bs file s _ r fresh room))
      ])
    ]
