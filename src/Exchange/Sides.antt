-- ===== src/Exchange/Sides.antt =====
-- The two sides of an exchange: what they have, and what they send.
use rted_tftp.Base.{
  ℕ, ◌≤◌, ◌≡◌, sym, ap, ◌∙◌, true, false, List, [], ◌∷◌, ◌++◌, map, none, some, Bytes,
}
use rted_tftp.Packet.{Endian}
use rted_tftp.Net.{Address, Host, Net, Arrival, packet, Datagram, deliver}
use rted_tftp.Net.Quiet.{IsQuiet, sendto-IsQuiet}
use rted_tftp.Transfer.{FileHandle}
use rted_tftp.Transfer.Blocks.{block_count, block_packets, ack_packets}
use rted_tftp.Transfer.Delivery.{arrivals, arrivals-map, ack_packets-endian, block_packets-endian}
use rted_tftp.Operation.{OperationData}
use rted_tftp.Operation.Fill.{System}
use rted_tftp.Request.{request_packet, send_request_packet}
use rted_tftp.Exchange.Filling.{Allocates}

abbrev pub inbox_set : Net → List Arrival → Net
inbox_set n inbox = record n { inbox = inbox }

pub inbox_set-IsQuiet : (n : Net) (inbox : List Arrival) → IsQuiet n → IsQuiet (inbox_set n inbox)
inbox_set-IsQuiet n inbox q = record { no_signal = q.no_signal; no_loss = q.no_loss }

-- The blocks of a file, and their acknowledgements, as datagrams.
abbrev pub blocks_to : Endian → ℕ → Address → Bytes → List Datagram
blocks_to e bs to file =
    map (λ b. record { to = to; bytes = b }) (block_packets e bs file 0 (block_count bs file))

abbrev pub acks_to : Endian → ℕ → Address → Bytes → List Datagram
acks_to e bs to file =
    map (λ b. record { to = to; bytes = b }) (ack_packets e 0 (block_count bs file))

-- The server's storage offers a file, and its memory lasts.
pub record Offers (sys : System) (path : Bytes) (file : FileHandle) : Type 0 where
  pub memory : Allocates sys.malloc
  pub opens : sys.fopen path false ≡ some file
  pub readable : file.read_fails ≡ false

-- A host on which a file can be made at the path, of at most that size.
pub record Accepts (sys : System) (path : Bytes) (size : ℕ) (file : FileHandle) : Type 0 where
  pub memory : Allocates sys.malloc
  pub absent : sys.fopen path false ≡ none
  pub creates : sys.fopen path true ≡ some file
  pub empty : file.written ≡ []
  pub room : size ≤ file.room

-- The request goes out.
pub asks :
    (h : Host) (op : OperationData) (n : Net) (request : Bytes)
    → request_packet h.endian op ≡ some request
    → IsQuiet n
    → send_request_packet h op n ≡ some (true, deliver n request)
unfolding send_request_packet
asks h op n request e q = rw (send_request_packet, e) (ap some (sendto-IsQuiet n request q))

-- What a side that has sent one datagram first, and then acknowledgements or blocks, has sent, as the
-- other side receives it, from a host of any byte order.
pub acks_arrive :
    (e f : Endian) (bs : ℕ) (from to : Address) (first : Datagram) (before sent : List Datagram)
    (file : Bytes)
    → before ≡ []
    → sent ≡ (before ++ first ∷ []) ++ acks_to e bs to file
    → packet from first.bytes ∷ map (packet from) (ack_packets f 0 (block_count bs file))
      ≡ arrivals from sent
acks_arrive e f bs from to first before sent file z log =
    ap (λ l. packet from first.bytes ∷ map (packet from) l)
      (ack_packets-endian f e 0 (block_count bs file))
    ∙ sym (
        ap (arrivals from) (log ∙ ap (λ l. (l ++ first ∷ []) ++ acks_to e bs to file) z)
        ∙ ap (◌∷◌ (packet from first.bytes))
            (arrivals-map from to (ack_packets e 0 (block_count bs file))))

pub blocks_arrive :
    (e f : Endian) (bs : ℕ) (from to : Address) (first : Datagram) (before sent : List Datagram)
    (file : Bytes)
    → before ≡ []
    → sent ≡ (before ++ first ∷ []) ++ blocks_to e bs to file
    → packet from first.bytes ∷ map (packet from) (block_packets f bs file 0 (block_count bs file))
      ≡ arrivals from sent
blocks_arrive e f bs from to first before sent file z log =
    ap (λ l. packet from first.bytes ∷ map (packet from) l)
      (block_packets-endian f e bs file 0 (block_count bs file))
    ∙ sym (
        ap (arrivals from) (log ∙ ap (λ l. (l ++ first ∷ []) ++ blocks_to e bs to file) z)
        ∙ ap (◌∷◌ (packet from first.bytes))
            (arrivals-map from to (block_packets e bs file 0 (block_count bs file))))
