-- ===== src/Exchange/ClientSide.antt =====
-- The client in an exchange without loss: what it sends, and what it keeps.
use rted_tftp.Base.{
  ◌%◌, ◌<◌, ◌≤◌, ◌≡◌, sym, ap, ◌∙◌, true, false, List, [], ◌∷◌, ◌++◌, map, some, length, Bytes,
  subst, arith, append-nil, inl, inr,
}
use rted_tftp.Protocol.{tftp_blksize_min, tftp_blksize_max}
use rted_tftp.Packet.{Endian, ack_packet}
use rted_tftp.Net.{Address, Host, Net, Arrival, packet, deliver}
use rted_tftp.Net.Quiet.{IsQuiet, recvfrom_packet}
use rted_tftp.Transfer.{FileHandle}
use rted_tftp.Transfer.Blocks.{block_count, block_packets, ack_packets}
use rted_tftp.Transfer.Transmit.Lossless.{transmit_lossless}
use rted_tftp.Transfer.Receive.Ending.{receive_lossless}
use rted_tftp.Operation.{operation_receive, operation_send, OperationData}
use rted_tftp.Operation.Fill.{System, tftp_fill_transfer_data}
use rted_tftp.Request.{request_packet}
use rted_tftp.Client.{
  client_freed, Memory, ended, after_reception, receive_filled, run_operation,
  after_acknowledgement, await_request, after_request, client_start_operation, after_transmission,
  transmit_filled,
}
use rted_tftp.Exchange.Sides.{Offers, Accepts, blocks_to, acks_to, asks}
use rted_tftp.Exchange.Filling.{supported_in_range, fill_sender-Prepares, fill_receiver-Prepares}
use rted_tftp.Transfer.Await.{tftp_await_acknowledgement}
use rted_tftp.Transfer.Await.Replies.{ack_reply, await_loop_step, on_reply, resume}

-- What the client's download writes and sends, when the blocks come in.
abbrev pub ClientReceives :
    System → Memory → Host → OperationData → Net → Address → Bytes → Bytes → Type 0
ClientReceives sys mem h op n from request file =
    (kept : FileHandle) × (m : Net) × (client_start_operation sys mem h op n
      ≡ ended true (some kept) m)
    × (kept.written ≡ file)
    × (m.sent
        ≡ (n.sent ++ record { to = n.peer_address; bytes = request } ∷ [])
          ++ acks_to h.endian op.block_size from file)

pub start_operation-receives :
    (sys : System) (mem : Memory) (h : Host) (op : OperationData) (n : Net) (from : Address)
    (request file : Bytes) (target : FileHandle)
    → tftp_blksize_min ≤ op.block_size
    → op.block_size ≤ tftp_blksize_max
    → op.operation_id ≡ operation_receive
    → mem.transfer_allocated ≡ true
    → request_packet h.endian op ≡ some request
    → Accepts sys op.path (length file) target
    → IsQuiet n
    → n.inbox
      ≡ map
          (packet from)
          (block_packets h.endian op.block_size file 0 (block_count op.block_size file))
    → 0 < length file % op.block_size
    → ClientReceives sys mem h op n from request file
unfolding client_start_operation after_request await_request after_acknowledgement run_operation
    client_freed receive_filled after_reception deliver
start_operation-receives sys mem h op n from request file target lo hi o allocated is_request accept
      q inbox uneven =
    let bs = op.block_size in
    let asked = deliver n request in
    let (op', s, filled, is_ready, file_is, net_is) =
      fill_receiver-Prepares sys h op asked bs target accept.memory (supported_in_range bs lo hi)
        accept.absent accept.creates in
    let quiet : IsQuiet s.net =
      subst IsQuiet (sym net_is) record { no_signal = q.no_signal; no_loss = q.no_loss } in
    let (t, receives, written, log) =
      receive_lossless h bs file from [] s (omega arith) (omega arith) is_ready
        (ap (λ f. f.written) file_is ∙ accept.empty)
        (subst (λ f. length file ≤ f.room) (sym file_is) accept.room) quiet
        (ap (λ m. m.inbox) net_is ∙ inbox ∙ sym (append-nil _)) uneven in
    (
      t.tx.file,
      t.net,
      ap (after_request sys mem h op) (asks h op n request is_request q)
          ∙ ap (λ i. after_acknowledgement sys mem h op (await_request mem h asked i)) o
          ∙ ap (λ i. run_operation sys mem h op asked i) o
          ∙ ap
              (λ a.
                client_freed a (receive_filled h (tftp_fill_transfer_data sys h op a true asked)))
              allocated
          ∙ ap (receive_filled h) filled
          ∙ ap after_reception receives,
      written,
      log ∙ ap (λ m. m.sent ++ acks_to h.endian bs from file) net_is,
    )

-- The acknowledgement of the request comes first, and what is behind it is left.
answered :
    (h : Host) (e : Endian) (from : Address) (rest : List Arrival) (buffer : Bytes) (n : Net)
    → 4 ≤ length buffer
    → n.inbox ≡ packet from (ack_packet e 0) ∷ rest
    → tftp_await_acknowledgement h 0 buffer n
      ≡ (true, record n { inbox = rest; peer_address = from })
unfolding tftp_await_acknowledgement
answered h e from rest buffer n l i =
    let m : Net = record n { inbox = rest; peer_address = from } in
    let looped =
      await_loop_step 4 h 0 buffer n m (packet from (ack_packet e 0))
        (recvfrom_packet n from (ack_packet e 0) rest i) in
    elim (on_reply h 0 buffer e from (ack_reply 0) l) [
      | inl (t, v) ↦ looped ∙ ap (resume 4 h 0 m) v
      | inr (f, v) ↦ absurd cc
    ]

-- What the client's upload sends, when its request and each of its blocks are acknowledged.
abbrev pub ClientSends :
    System → Memory → Host → OperationData → Net → Address → Bytes → Bytes → Type 0
ClientSends sys mem h op n to request file =
    (left : FileHandle) × (m : Net) × (client_start_operation sys mem h op n
      ≡ ended true (some left) m)
    × (m.sent
        ≡ (n.sent ++ record { to = n.peer_address; bytes = request } ∷ [])
          ++ blocks_to h.endian op.block_size to file)

pub start_operation-sends :
    (sys : System) (mem : Memory) (h : Host) (op : OperationData) (n : Net) (from : Address)
    (request : Bytes) (source : FileHandle)
    → tftp_blksize_min ≤ op.block_size
    → op.block_size ≤ tftp_blksize_max
    → op.operation_id ≡ operation_send
    → mem.transfer_allocated ≡ true
    → 4 ≤ length mem.first_buffer
    → request_packet h.endian op ≡ some request
    → Offers sys op.path source
    → IsQuiet n
    → n.inbox
      ≡ packet from (ack_packet h.endian 0)
        ∷ map (packet from) (ack_packets h.endian 0 (block_count op.block_size source.unread))
    → ClientSends sys mem h op n from request source.unread
unfolding client_start_operation after_request await_request after_acknowledgement run_operation
    client_freed transmit_filled after_transmission deliver
start_operation-sends sys mem h op n from request source lo hi o allocated buffer is_request offer q
      inbox =
    let bs = op.block_size in
    let acks = map (packet from) (ack_packets h.endian 0 (block_count bs source.unread)) in
    let asked = deliver n request in
    let begun : Net = record asked { inbox = acks; peer_address = from } in
    let (op', s, filled, is_ready, file_is, net_is) =
      fill_sender-Prepares sys h op begun bs source offer.memory (supported_in_range bs lo hi)
        offer.opens in
    let quiet : IsQuiet s.net =
      subst IsQuiet (sym net_is) record { no_signal = q.no_signal; no_loss = q.no_loss } in
    let (t, sends, log, _) =
      transmit_lossless h bs from [] s (omega arith) is_ready
        (ap (λ f. f.read_fails) file_is ∙ offer.readable) quiet (ap (λ m. m.peer_address) net_is)
        (ap (λ m. m.inbox) net_is
          ∙ ap (λ f. map (packet from) (ack_packets h.endian 0 (block_count bs f.unread)))
              (sym file_is)
          ∙ sym (append-nil _)) in
    (
      t.tx.file,
      t.net,
      ap (after_request sys mem h op) (asks h op n request is_request q)
          ∙ ap (λ i. after_acknowledgement sys mem h op (await_request mem h asked i)) o
          ∙ ap (after_acknowledgement sys mem h op)
              (answered h h.endian from acks mem.first_buffer asked buffer inbox)
          ∙ ap (λ i. run_operation sys mem h op begun i) o
          ∙ ap
              (λ a.
                client_freed a (transmit_filled h (tftp_fill_transfer_data sys h op a false begun)))
              allocated
          ∙ ap (transmit_filled h) filled
          ∙ ap after_transmission sends,
      log
          ∙ ap (λ m. m.sent ++ blocks_to h.endian bs from s.tx.file.unread) net_is
          ∙ ap (λ f. begun.sent ++ blocks_to h.endian bs from f.unread) file_is,
    )
