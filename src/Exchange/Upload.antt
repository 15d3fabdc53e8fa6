-- ===== src/Exchange/Upload.antt =====
-- An upload: the client brings a file into the server's storage.
use rted_tftp.Base.{
  ℕ, ◌%◌, ◌<◌, ◌≤◌, ◌≡◌, refl, sym, ap, ◌∙◌, true, false, List, [], ◌∷◌, ◌++◌, map, some, length,
  Bytes, codes, subst, arith,
}
use rted_tftp.Protocol.{tftp_blksize_min, tftp_blksize_max, server_storage_path}
use rted_tftp.Packet.{overlay, zeros, ack_packet}
use rted_tftp.Packet.Layout.{ack_packet_lem}
use rted_tftp.Net.{Address, Host, Net, Arrival, packet}
use rted_tftp.Net.Quiet.{IsQuiet}
use rted_tftp.Transfer.{FileHandle}
use rted_tftp.Transfer.Blocks.{block_count, block_packets, ack_packets}
use rted_tftp.Transfer.Delivery.{arrivals}
use rted_tftp.Operation.{operation_send, mode_octet, OperationData}
use rted_tftp.Operation.Fill.{System}
use rted_tftp.Operation.Deletion.{FileSystem}
use rted_tftp.Request.{parsed, server_parse_request_data}
use rted_tftp.Request.Names.{IsName, EndsWith, opcode_of, request_packet-request_bytes}
use rted_tftp.Request.Layout.{request_bytes, IsTransfer}
use rted_tftp.Request.RoundTrip.{served, request_round_trip}
use rted_tftp.Task.{received, task_ended, server_task_start}
use rted_tftp.Client.{Memory, ended, client_start_operation}
use rted_tftp.Exchange.Sides.{
  inbox_set, inbox_set-IsQuiet, Offers, Accepts, acks_arrive, blocks_arrive,
}
use rted_tftp.Exchange.Filling.{supported_in_range}
use rted_tftp.Exchange.ServerSide.{task_start-keeps}
use rted_tftp.Exchange.ClientSide.{start_operation-sends}

-- The request of the client at `b` is parsed at the server at `a`; its thread and the client, each
-- receiving just what the other one sends, both come to their ends, with success, and the file that the
-- thread keeps is the client's.
abbrev pub Uploads :
    System
    → System
    → FileSystem
    → Memory
    → Host
    → Host
    → Address
    → Address
    → ℕ
    → OperationData
    → Net
    → Net
    → Bytes
    → Type 0
Uploads sysc syss fs mem hc hs a b data_socket op nc fresh file =
    (request : Bytes) × (served_op : OperationData) × (replies : List Arrival) × (blocks : List
      Arrival)
    × (left : FileHandle) × (kept : FileHandle) × (ns : Net) × (mc : Net) × (ms : Net)
    × (server_parse_request_data hs fresh data_socket b (overlay (zeros 514) request)
          (length request)
        ≡ parsed (ns, some served_op))
    × (server_task_start syss fs hs false true served_op (inbox_set ns blocks)
        ≡ task_ended (received kept) ms)
    × (client_start_operation sysc mem hc op (inbox_set nc replies) ≡ ended true (some left) mc)
    × (replies ≡ arrivals a ms.sent)
    × (packet b request ∷ blocks ≡ arrivals b mc.sent)
    × (kept.written ≡ file)

-- A client brings a file, whose size is no multiple of the block size, to a server, in octet mode, with
-- a block size from 8 to 65464 and a name of at most 255 bytes with neither zeros nor slashes. The
-- client's file can be read; the server has none of that name and room for it; memory lasts on both
-- sides, that for the client's wait has four bytes or more, no signal arrives and no `sendto` fails.
-- Then the server parses the request, its thread and the client, each receiving just what the other one
-- sends, come to their ends with success, and the file that the thread keeps is the client's. The two
-- hosts may differ in byte order.
pub upload-Uploads :
    (sysc syss : System) (fs : FileSystem) (mem : Memory) (hc hs : Host) (a b : Address)
    (data_socket : ℕ) (op : OperationData) (nc fresh : Net) (name : Bytes)
    (source target : FileHandle)
    → IsName name
    → EndsWith op name
    → op.operation_id ≡ operation_send
    → op.transfer_mode ≡ mode_octet
    → tftp_blksize_min ≤ op.block_size
    → op.block_size ≤ tftp_blksize_max
    → mem.transfer_allocated ≡ true
    → 4 ≤ length mem.first_buffer
    → Offers sysc op.path source
    → Accepts syss (server_storage_path ++ name) (length source.unread) target
    → IsQuiet nc
    → IsQuiet fresh
    → nc.sent ≡ []
    → fresh.sent ≡ []
    → 0 < length source.unread % op.block_size
    → Uploads sysc syss fs mem hc hs a b data_socket op nc fresh source.unread
upload-Uploads sysc syss fs mem hc hs a b data_socket op nc fresh name source target is_name ends o
      m lo hi allocated buffer offer accept qc qs none_sent none_out uneven =
    let bs = op.block_size in
    let file = source.unread in
    let request = request_bytes (opcode_of op.operation_id) name (codes "octet") bs in
    let transfer : IsTransfer op.operation_id = subst IsTransfer (sym o) tt in
    let is_request = request_packet-request_bytes hc.endian op name is_name ends transfer m in
    let parse =
      request_round_trip hc.endian op name request hs fresh data_socket b is_name ends transfer m lo
        hi is_request in
    let ns : Net = record fresh { peer_address = b } in
    let sop = served operation_send data_socket name bs in
    let acks = ack_packets hc.endian 0 (block_count bs file) in
    let replies = packet a (ack_packet hc.endian 0) ∷ map (packet a) acks in
    let blocks = map (packet b) (block_packets hs.endian bs file 0 (block_count bs file)) in
    let (kept, ms, task, written, log) =
      task_start-keeps syss fs hs sop (inbox_set ns blocks) bs b file target (omega arith)
        (omega arith) refl (supported_in_range bs lo hi) accept
        record { no_signal = qs.no_signal; no_loss = qs.no_loss } refl uneven in
    let (left, mc, client, out) =
      start_operation-sends sysc mem hc op (inbox_set nc replies) a request source lo hi o allocated
        buffer is_request offer (inbox_set-IsQuiet nc replies qc) refl in
    (
      request,
      sop,
      replies,
      blocks,
      left,
      kept,
      ns,
      mc,
      ms,
      parse ∙ ap (λ i. parsed (ns, some (served i data_socket name bs))) o,
      task,
      client,
      ap (λ p. packet a p ∷ map (packet a) acks)
            (ack_packet_lem hc.endian 0 ∙ sym (ack_packet_lem hs.endian 0))
          ∙ acks_arrive hs.endian hc.endian bs a b
              (record { to = b; bytes = ack_packet hs.endian 0 }) fresh.sent ms.sent file none_out
              log,
      blocks_arrive hc.endian hs.endian bs b a (record { to = nc.peer_address; bytes = request })
          nc.sent mc.sent file none_sent out,
      written,
    )
