-- ===== src/Transfer/Safety.antt =====
-- The two sides of a transfer together, over a network that loses, repeats, reorders and adds.
use rted_tftp.Base.{
  ℕ, ◌<◌, ◌≤◌, ◌≡◌, sym, ◌∙◌, ◌⊎◌, inl, inr, subst, Bool, List, [], ◌∷◌, ◌++◌, Option, none, some,
  length, Bytes, All, All-middle,
}
use rted_tftp.Packet.{Endian, ntohs, raw_opcode}
use rted_tftp.Packet.Layout.{data_packet_lem, ntohs-load16}
use rted_tftp.Net.{Host, Arrival, packet, timed_out, failed, Datagram}
use rted_tftp.Net.Sent.{AllSent}
use rted_tftp.Transfer.{Session, IsReady}
use rted_tftp.Transfer.Blocks.{block_count, block_packet, number_of, chunk}
use rted_tftp.Transfer.Transmit.{tftp_transmit_file}
use rted_tftp.Transfer.Transmit.Genuine.{IsForeign, IsFromSender, transmit-SendsFile}
use rted_tftp.Transfer.Receive.{tftp_receive_file}
use rted_tftp.Transfer.Receive.Safety.{Genuine, EndsSafely, receive_safe}

-- What the network may hand over: a datagram that was sent, at any time and as often as it likes, one
-- from elsewhere that is no DATA packet, or nothing.
abbrev pub IsCarried : Endian → List Datagram → Arrival → Type 0
IsCarried e sent (packet from b) =
    ((before : List Datagram) × (d : Datagram) × (after : List Datagram) × (sent
        ≡ before ++ (d ∷ after))
      × (b ≡ d.bytes))
    ⊎ IsForeign e b
IsCarried e sent timed_out = Unit
IsCarried e sent failed = Unit

block_packet-endian :
    (e f : Endian) (bs : ℕ) (file : Bytes) (i : ℕ)
    → block_packet e bs file i ≡ block_packet f bs file i
block_packet-endian e f bs file i =
    data_packet_lem e (number_of i) (chunk bs file i)
    ∙ sym (data_packet_lem f (number_of i) (chunk bs file i))

opcode-endian : (e f : Endian) (b : Bytes) → ntohs e (raw_opcode e b) ≡ ntohs f (raw_opcode f b)
opcode-endian e f b = ntohs-load16 e b 0 ∙ sym (ntohs-load16 f b 0)

IsForeign-endian : (e f : Endian) (b : Bytes) → IsForeign e b → IsForeign f b
IsForeign-endian e f b (long, other) = (long, λ q. other (opcode-endian e f b ∙ q))

carried-Genuine :
    (e f : Endian) (bs : ℕ) (file : Bytes) (sent : List Datagram) (a : Arrival)
    → All (λ d. IsFromSender e bs file d.bytes) sent
    → IsCarried f sent a
    → Genuine f bs file a
carried-Genuine e f bs file sent (packet from b) g (inl (before, d, after, at, same)) =
    from_sender (
      subst (IsFromSender e bs file) (sym same) (
        All-middle (λ d. IsFromSender e bs file d.bytes) before d after
          (subst (All (λ d. IsFromSender e bs file d.bytes)) at g)))
  where
    from_sender : IsFromSender e bs file b → Genuine f bs file (packet from b)
    from_sender (inl (i, lt, q)) = inl (i, lt, q ∙ block_packet-endian e f bs file i)
    from_sender (inr other) = inr (IsForeign-endian e f b other)
carried-Genuine e f bs file sent (packet from b) g (inr other) = inr other
carried-Genuine e f bs file sent timed_out g c = tt
carried-Genuine e f bs file sent failed g c = tt

inbox-Genuine :
    (e f : Endian) (bs : ℕ) (file : Bytes) (sent : List Datagram) (inbox : List Arrival)
    → All (λ d. IsFromSender e bs file d.bytes) sent
    → All (IsCarried f sent) inbox
    → All (Genuine f bs file) inbox
inbox-Genuine e f bs file sent [] g c = tt
inbox-Genuine e f bs file sent (a ∷ inbox) g (c, cs) =
    (carried-Genuine e f bs file sent a g c, inbox-Genuine e f bs file sent inbox g cs)

-- Let a sender run on any arrivals and with any failures, and let the network hand a receiver what the
-- sender has sent, with losses, repetitions, in any order, and with foreign datagrams of at least four
-- bytes that are no DATA packets. If the file has at most 65536 blocks and the receiver's disk has room
-- for it, then the receiver ends, without reading past its buffer except to print the message of an
-- ERROR packet that has no terminator in the buffer; it has written some number of whole blocks from
-- the start of the sender's file (or all of it), and if it returns true it has written the sender's
-- file. The two hosts may differ in byte order.
pub transfer_safe :
    (hs hr : Host) (bs : ℕ) (s r t : Session) (ok : Bool)
    → 0 < bs
    → bs < 65536
    → block_count bs s.tx.file.unread ≤ 65536
    → IsReady bs s
    → IsReady bs r
    → s.net.sent ≡ []
    → r.tx.file.written ≡ []
    → length s.tx.file.unread ≤ r.tx.file.room
    → tftp_transmit_file hs s ≡ some (ok, t)
    → All (IsCarried hr.endian t.net.sent) r.net.inbox
    → EndsSafely hr bs s.tx.file.unread (tftp_receive_file hr r)
transfer_safe hs hr bs s r t ok positive small few rs rr none_yet fresh room done carried =
    receive_safe hr bs file r positive small few rr fresh room
      (inbox-Genuine hs.endian hr.endian bs file t.net.sent r.net.inbox sent carried)
  where
    file : Bytes
    file = s.tx.file.unread

    AllOf : Option (Bool × Session) → Type 0
    AllOf none = Unit
    AllOf (some result) = AllSent (IsFromSender hs.endian bs s.tx.file.unread) result.1.net

    sent : AllSent (IsFromSender hs.endian bs s.tx.file.unread) t.net
    sent =
        let (result, e, all) = transmit-SendsFile hs bs s positive rs none_yet in
        subst AllOf (sym e ∙ done) all
