-- ===== src/Exchange/ServerSide.antt =====
-- The server's thread in an exchange without loss: what it sends, and what it keeps.
use rted_tftp.Base.{
  ℕ, ◌%◌, ◌<◌, ◌≤◌, ◌≡◌, sym, ap, ◌∙◌, true, false, [], ◌∷◌, ◌++◌, map, some, length, Bytes, subst,
  append-nil,
}
use rted_tftp.Packet.{ack_packet}
use rted_tftp.Net.{Address, Host, Net, packet, deliver, tftp_send_ack}
use rted_tftp.Net.Quiet.{IsQuiet, sendto-IsQuiet}
use rted_tftp.Transfer.{FileHandle, Session, IsReady}
use rted_tftp.Transfer.Blocks.{block_count, block_packets, ack_packets}
use rted_tftp.Transfer.Transmit.{tftp_transmit_file}
use rted_tftp.Transfer.Transmit.Lossless.{transmit_lossless}
use rted_tftp.Transfer.Receive.Ending.{receive_lossless}
use rted_tftp.Operation.{operation_receive, operation_send, OperationData, supported_block_size}
use rted_tftp.Operation.Fill.{System, ready, tftp_fill_transfer_data}
use rted_tftp.Operation.Deletion.{FileSystem}
use rted_tftp.Task.{
  task_freed, untouched, task_ended, download, after_download, run_task, server_task_start,
  received, upload, acknowledged_upload, after_upload,
}
use rted_tftp.Exchange.Sides.{Offers, Accepts, blocks_to, acks_to}
use rted_tftp.Exchange.Filling.{fill_sender-Prepares, fill_receiver-Prepares}

-- The transmission of the thread of a download returns true when each of its blocks is acknowledged,
-- and what the thread has sent then.
abbrev pub TaskSends :
    System → FileSystem → Host → OperationData → Net → ℕ → Address → Bytes → Type 0
TaskSends sys fs h op n bs to file =
    (op' : OperationData) × (s : Session) × (t : Session) × (tftp_fill_transfer_data sys h op true
        false n
      ≡ ready op' s)
    × (tftp_transmit_file h s ≡ some (true, t))
    × (server_task_start sys fs h false true op n ≡ task_ended (untouched (some t.tx.file)) t.net)
    × (t.net.sent ≡ n.sent ++ blocks_to h.endian bs to file)

pub task_start-sends :
    (sys : System) (fs : FileSystem) (h : Host) (op : OperationData) (n : Net) (bs : ℕ)
    (to : Address) (source : FileHandle)
    → 0 < bs
    → op.operation_id ≡ operation_send
    → supported_block_size op.block_size ≡ some bs
    → Offers sys op.path source
    → IsQuiet n
    → n.peer_address ≡ to
    → n.inbox ≡ map (packet to) (ack_packets h.endian 0 (block_count bs source.unread))
    → TaskSends sys fs h op n bs to source.unread
unfolding server_task_start run_task task_freed download after_download
task_start-sends sys fs h op n bs to source positive o size offer q peer inbox =
    let (op', s, filled, is_ready, file_is, net_is) =
      fill_sender-Prepares sys h op n bs source offer.memory size offer.opens in
    let (t, sends, log, _) =
      transmit_lossless h bs to [] s positive is_ready
        (ap (λ f. f.read_fails) file_is ∙ offer.readable) (subst IsQuiet (sym net_is) q)
        (ap (λ m. m.peer_address) net_is ∙ peer)
        (ap (λ m. m.inbox) net_is
          ∙ inbox
          ∙ ap (λ f. map (packet to) (ack_packets h.endian 0 (block_count bs f.unread)))
              (sym file_is)
          ∙ sym (append-nil _)) in
    (
      op',
      s,
      t,
      filled,
      sends,
      ap (λ i. run_task sys fs h true op n i) o ∙ ap (download h) filled ∙ ap after_download sends,
      log
          ∙ ap (λ m. m.sent ++ blocks_to h.endian bs to s.tx.file.unread) net_is
          ∙ ap (λ f. n.sent ++ blocks_to h.endian bs to f.unread) file_is,
    )

-- What the thread of an upload keeps and sends, when the blocks come in.
abbrev pub TaskKeeps :
    System → FileSystem → Host → OperationData → Net → ℕ → Address → Bytes → Type 0
TaskKeeps sys fs h op n bs from file =
    (kept : FileHandle) × (m : Net) × (server_task_start sys fs h false true op n
      ≡ task_ended (received kept) m)
    × (kept.written ≡ file)
    × (m.sent
        ≡ (n.sent ++ record { to = n.peer_address; bytes = ack_packet h.endian 0 } ∷ [])
          ++ acks_to h.endian bs from file)

pub task_start-keeps :
    (sys : System) (fs : FileSystem) (h : Host) (op : OperationData) (n : Net) (bs : ℕ)
    (from : Address) (file : Bytes) (target : FileHandle)
    → 0 < bs
    → bs < 65536
    → op.operation_id ≡ operation_receive
    → supported_block_size op.block_size ≡ some bs
    → Accepts sys op.path (length file) target
    → IsQuiet n
    → n.inbox ≡ map (packet from) (block_packets h.endian bs file 0 (block_count bs file))
    → 0 < length file % bs
    → TaskKeeps sys fs h op n bs from file
unfolding server_task_start run_task task_freed upload acknowledged_upload after_upload
    tftp_send_ack deliver
task_start-keeps sys fs h op n bs from file target positive small o size accept q inbox uneven =
    let (op', s, filled, is_ready, file_is, net_is) =
      fill_receiver-Prepares sys h op n bs target accept.memory size accept.absent accept.creates in
    let acked = deliver n (ack_packet h.endian 0) in
    let s' : Session = record s { net = acked } in
    let s'-IsReady : IsReady bs s' = record {
      size = is_ready.size;
      max_size = is_ready.max_size;
      response_max = is_ready.response_max;
      number = is_ready.number;
      counter = is_ready.counter;
      data_buffer = is_ready.data_buffer;
      response_buffer = is_ready.response_buffer;
    } in
    let (t, receives, written, log) =
      receive_lossless h bs file from [] s' positive small s'-IsReady
        (ap (λ f. f.written) file_is ∙ accept.empty)
        (subst (λ f. length file ≤ f.room) (sym file_is) accept.room)
        record { no_signal = q.no_signal; no_loss = q.no_loss } (inbox ∙ sym (append-nil _))
        uneven in
    (
      t.tx.file,
      t.net,
      ap (λ i. run_task sys fs h true op n i) o
          ∙ ap (upload h) filled
          ∙ ap (λ m. acknowledged_upload h s (tftp_send_ack h 0 m)) net_is
          ∙ ap (acknowledged_upload h s) (sendto-IsQuiet n (ack_packet h.endian 0) q)
          ∙ ap after_upload receives,
      written,
      log,
    )
