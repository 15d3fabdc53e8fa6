-- ===== src/Transfer/Transmit/Genuine.antt =====
-- Whatever the network does, the transmitter sends blocks of its file and errors, and nothing else.
use rted_tftp.Base.{
  ℕ, zero, suc, ◌+◌, ◌<◌, ◌≤◌, ◌≡◌, ◌≢◌, sym, ◌⊎◌, inl, inr, subst, Bool, false, Option, none, some,
  [], length, Bytes, ◌==◌, arith, Bool-cases, ==_iff, All,
}
use rted_tftp.Protocol.{tftp_data, tftp_error}
use rted_tftp.Packet.{Endian, error_packet, ntohs, raw_opcode}
use rted_tftp.Packet.Layout.{error_packet_lem, ntohs-header, error_text}
use rted_tftp.Net.{Host, check_sigterm}
use rted_tftp.Net.Sent.{AllSent, check_sigterm-AllSent}
use rted_tftp.Transfer.{Session, IsReady}
use rted_tftp.Transfer.Blocks.{block_packet, block_count, next_block}
use rted_tftp.Transfer.Transmit.{
  Leave, left, stopped, spent, load_block, block_round, block_loop, begin_transmission,
  tftp_transmit_file,
}
use rted_tftp.Transfer.Transmit.Total.{Leaves, block_round-Leaves, transmit_total}
use rted_tftp.Transfer.Transmit.Sent.{outgoing, LeaveSent, block_round-Sent}
use rted_tftp.Transfer.Transmit.Loading.{
  Loading, outgoing-load_block, bytes_read-load_block, left-Loading, begin-Loading,
}

-- A datagram with a whole header that is no DATA packet.
abbrev pub IsForeign : Endian → Bytes → Type 0
IsForeign e b = (4 ≤ length b) × (ntohs e (raw_opcode e b) ≢ tftp_data)

-- One of the blocks of a file, with its number.
abbrev pub IsBlock : Endian → ℕ → Bytes → Bytes → Type 0
IsBlock e bs file b = (i : ℕ) × (i < block_count bs file) × (b ≡ block_packet e bs file i)

-- What a transmitter may send.
abbrev pub IsFromSender : Endian → ℕ → Bytes → Bytes → Type 0
IsFromSender e bs file b = IsBlock e bs file b ⊎ IsForeign e b

-- On whichever host an error packet is built and read, it is no DATA packet.
pub error_packet-IsForeign :
    (reader builder : Endian) (c : ℕ) (message : Bytes) (item : Option Bytes)
    → IsForeign reader (error_packet builder c message item)
error_packet-IsForeign reader builder c message item =
    rw (error_packet_lem builder c message item) (
      omega arith,
      λ e. absurd (omega (arith, (ntohs-header reader tftp_error c (error_text message item)).0)),
    )

abbrev ResultSent : (Bytes → Type 0) → Option (Bool × Session) → Type 0
ResultSent P none = Unit
ResultSent P (some r) = AllSent P r.1.net

module _ (h : Host) (bs : ℕ) (file : Bytes) (positive : 0 < bs) where
  abbrev Allowed : Bytes → Type 0
  Allowed = IsFromSender h.endian bs file

  errors-Allowed :
      (e : Endian) (c : ℕ) (m : Bytes) (i : Option Bytes) → Allowed (error_packet e c m i)
  errors-Allowed e c m i = inr (error_packet-IsForeign h.endian e c m i)

  after_round :
      (fuel : ℕ) (s : Session) (l : Leave)
      → Leaves s.block_size (load_block h s).tx l
      → LeaveSent Allowed l
      → ((t : Session)
          → Leaves s.block_size (load_block h s).tx (left t)
          → AllSent Allowed t.net
          → ResultSent Allowed (block_loop fuel h t))
      → ResultSent Allowed
          (elim l [ left t ↦ block_loop fuel h t | stopped t ↦ some (false, t) | spent ↦ none ])
  after_round fuel s (left t) b a rec = rec t b a
  after_round fuel s (stopped t) b a rec = a
  after_round fuel s spent b a rec = tt

  block_loop-Sent :
      (fuel i : ℕ) (s : Session)
      → Loading bs file i s
      → (s.tx.bytes_sent ≡ s.tx.data_packet_max_size → i < block_count bs file)
      → AllSent Allowed s.net
      → ResultSent Allowed (block_loop fuel h s)
  unfolding block_loop
  block_loop-Sent zero i s v due a = tt
  block_loop-Sent (suc fuel) i s v due a =
      elim (Bool-cases (s.tx.bytes_sent == s.tx.data_packet_max_size)) [
        | inl e ↦
            let inside : i < block_count bs file = due ((==_iff _ _).0 e) in
            let allowed : Allowed (outgoing (load_block h s).tx) =
              inl (i, inside, outgoing-load_block h bs file i s v) in
            rw (e, ResultSent, block_loop)
              (after_round fuel s (block_round h s) (block_round-Leaves h s)
                (block_round-Sent Allowed errors-Allowed h s allowed a)
                λ t b a'.
                  let (same, counted) = b in
                  let v' = left-Loading h bs file i s v t same in
                  block_loop-Sent fuel (i + 1) t v'
                    (λ full. next_block bs file i positive (
                      omega
                        (arith, full, counted, v'.max_size, bytes_read-load_block h bs file i s v)))
                    a')
        | inr e ↦ rw (e, ResultSent, block_loop) a
      ]

-- The transmission returns, and all that it has sent are blocks of the file and errors.
abbrev pub SendsFile : Endian → ℕ → Bytes → Option (Bool × Session) → Type 0
SendsFile e bs file o =
    (r : Bool × Session) × (o ≡ some r) × AllSent (IsFromSender e bs file) r.1.net

-- If the block size is positive and the transfer is as `tftp_fill_transfer_data` leaves it, then,
-- whatever comes in and whatever fails, `tftp_transmit_file` returns, and all that it has sent are
-- blocks of the file, each with its number, and packets that are no DATA packets.
pub transmit-SendsFile :
    (h : Host) (bs : ℕ) (s : Session)
    → 0 < bs
    → IsReady bs s
    → s.net.sent ≡ []
    → SendsFile h.endian bs s.tx.file.unread (tftp_transmit_file h s)
unfolding tftp_transmit_file
transmit-SendsFile h bs s positive r none_yet =
    let file = s.tx.file.unread in
    let (result, e) =
      transmit_total h s (omega (arith, r.size)) (omega (arith, r.size, r.max_size)) in
    (result, e, subst (ResultSent (IsFromSender h.endian bs file)) e sent)
  where
    P : Bytes → Type 0
    P = IsFromSender h.endian bs s.tx.file.unread

    start : AllSent P s.net
    start = subst (All (λ d. P d.bytes)) (sym none_yet) tt

    polled : AllSent P (check_sigterm h s.net).1
    polled = check_sigterm-AllSent P (errors-Allowed h bs s.tx.file.unread positive) h s.net start

    sent : ResultSent P (tftp_transmit_file h s)
    sent = elim (Bool-cases (check_sigterm h s.net).0) [
      | inl e ↦ rw e polled
      | inr e ↦ rw e (
          unfold begin_transmission in
          block_loop-Sent h bs s.tx.file.unread positive _ 0 _
            (begin-Loading h bs (record s { net = (check_sigterm h s.net).1 })
              record {
                size = r.size;
                max_size = r.max_size;
                response_max = r.response_max;
                number = r.number;
                counter = r.counter;
                data_buffer = r.data_buffer;
                response_buffer = r.response_buffer;
              })
            (λ full. omega arith) polled)
    ]
