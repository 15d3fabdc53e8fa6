-- ===== src/Transfer/Delivery.antt =====
-- The two sides of a transfer together, on hosts of any byte order.
use rted_tftp.Base.{
  ℕ, zero, suc, ◌+◌, ◌%◌, ◌<◌, ◌≤◌, ◌≡◌, refl, true, false, List, [], ◌∷◌, map, length, Bytes, some,
  ◌∙◌, sym, ap, ap₂, append-nil,
}
use rted_tftp.Packet.{Endian}
use rted_tftp.Packet.Layout.{data_packet_lem, ack_packet_lem}
use rted_tftp.Net.{Address, Host, Arrival, packet, Datagram}
use rted_tftp.Net.Quiet.{IsQuiet}
use rted_tftp.Transfer.{Session, IsReady}
use rted_tftp.Transfer.Blocks.{block_packets, ack_packets, block_count, number_of, chunk}
use rted_tftp.Transfer.Transmit.{tftp_transmit_file}
use rted_tftp.Transfer.Transmit.Lossless.{transmit_lossless}
use rted_tftp.Transfer.Receive.{finished, tftp_receive_file}
use rted_tftp.Transfer.Receive.Ending.{receive_lossless}

-- The bytes on the wire do not depend on the host.
pub ack_packets-endian : (e f : Endian) (i k : ℕ) → ack_packets e i k ≡ ack_packets f i k
ack_packets-endian e f i zero = refl
ack_packets-endian e f i (suc k) =
    ap₂ ◌∷◌ (ack_packet_lem e (number_of i) ∙ sym (ack_packet_lem f (number_of i)))
      (ack_packets-endian e f (i + 1) k)

pub block_packets-endian :
    (e f : Endian) (bs : ℕ) (file : Bytes) (i k : ℕ)
    → block_packets e bs file i k ≡ block_packets f bs file i k
block_packets-endian e f bs file i zero = refl
block_packets-endian e f bs file i (suc k) =
    ap₂ ◌∷◌
      (data_packet_lem e (number_of i) (chunk bs file i)
        ∙ sym (data_packet_lem f (number_of i) (chunk bs file i)))
      (block_packets-endian e f bs file (i + 1) k)

-- What the datagrams of one side are to the other side.
abbrev pub arrivals : Address → List Datagram → List Arrival
arrivals from = map λ d. packet from d.bytes

pub arrivals-map :
    (from to : Address) (bs : List Bytes)
    → arrivals from (map (λ b. record { to = to; bytes = b }) bs) ≡ map (packet from) bs
arrivals-map from to [] = refl
arrivals-map from to (b ∷ bs) = ap (◌∷◌ (packet from b)) (arrivals-map from to bs)

abbrev pub with_inbox : Session → List Arrival → Session
with_inbox s inbox = record s { net = record s.net { inbox = inbox } }

with_inbox-IsReady :
    (bs : ℕ) (s : Session) (inbox : List Arrival) → IsReady bs s → IsReady bs (with_inbox s inbox)
with_inbox-IsReady bs s inbox r = record {
  size = r.size;
  max_size = r.max_size;
  response_max = r.response_max;
  number = r.number;
  counter = r.counter;
  data_buffer = r.data_buffer;
  response_buffer = r.response_buffer;
}

with_inbox-IsQuiet :
    (s : Session) (inbox : List Arrival) → IsQuiet s.net → IsQuiet (with_inbox s inbox).net
with_inbox-IsQuiet s inbox q = record { no_signal = q.no_signal; no_loss = q.no_loss }

-- There are messages, each side receiving just what the other one sends, with which both functions
-- return true and the receiver has written the sender's file.
abbrev pub Delivers : Host → Host → Address → Address → Session → Session → Type 0
Delivers hs hr a b s r =
    (to_sender : List Arrival) × (to_receiver : List Arrival) × (t : Session) × (u : Session)
    × (tftp_transmit_file hs (with_inbox s to_sender) ≡ some (true, t))
    × (tftp_receive_file hr (with_inbox r to_receiver) ≡ finished true u)
    × (to_sender ≡ arrivals b u.net.sent)
    × (to_receiver ≡ arrivals a t.net.sent)
    × (u.tx.file.written ≡ s.tx.file.unread)

-- A sender at `a` and a receiver at `b`, each on a host of either byte order, with no signal, no
-- failing `sendto` and room on the receiver's disk: if the size of the file is no multiple of the
-- block size, there are messages, each side receiving just what the other one sends, with which both
-- functions return true and the receiver has written the sender's file.
pub transfer-Delivers :
    (hs hr : Host) (bs : ℕ) (a b : Address) (s r : Session)
    → 0 < bs
    → bs < 65536
    → IsReady bs s
    → IsReady bs r
    → s.tx.file.read_fails ≡ false
    → r.tx.file.written ≡ []
    → length s.tx.file.unread ≤ r.tx.file.room
    → IsQuiet s.net
    → IsQuiet r.net
    → s.net.peer_address ≡ b
    → s.net.sent ≡ []
    → r.net.sent ≡ []
    → 0 < length s.tx.file.unread % bs
    → Delivers hs hr a b s r
transfer-Delivers hs hr bs a b s r positive small rs rr readable fresh room qs qr peer ns nr
      uneven =
    let file = s.tx.file.unread in
    let n = block_count bs file in
    let acks = map (packet b) (ack_packets hr.endian 0 n) in
    let blocks = map (packet a) (block_packets hs.endian bs file 0 n) in
    let (t, sent, log, _) =
      transmit_lossless hs bs b [] (with_inbox s acks) positive (with_inbox-IsReady bs s acks rs)
        readable (with_inbox-IsQuiet s acks qs) peer
        (ap (map (packet b)) (ack_packets-endian hr.endian hs.endian 0 n) ∙ sym (append-nil _)) in
    let (u, received, same, log') =
      receive_lossless hr bs file a [] (with_inbox r blocks) positive small
        (with_inbox-IsReady bs r blocks rr) fresh room (with_inbox-IsQuiet r blocks qr)
        (ap (map (packet a)) (block_packets-endian hs.endian hr.endian bs file 0 n)
          ∙ sym (append-nil _))
        uneven in
    (
      acks,
      blocks,
      t,
      u,
      sent,
      received,
      sym (rw (log', nr) (arrivals-map b a (ack_packets hr.endian 0 n))),
      sym (rw (log, ns) (arrivals-map a b (block_packets hs.endian bs file 0 n))),
      same,
    )
