-- ===== src/Exchange/Download.antt =====
-- A download: the client asks for a file of the server's storage.
use rted_tftp.Base.{
  ℕ, ◌%◌, ◌<◌, ◌≤◌, ◌≡◌, refl, sym, ap, ◌∙◌, true, false, List, [], ◌∷◌, ◌++◌, map, some, length,
  Bytes, codes, subst, arith,
}
use rted_tftp.Protocol.{tftp_blksize_min, tftp_blksize_max, server_storage_path}
use rted_tftp.Packet.{overlay, zeros}
use rted_tftp.Net.{Address, Host, Net, Arrival, packet}
use rted_tftp.Net.Quiet.{IsQuiet}
use rted_tftp.Transfer.{FileHandle, Session}
use rted_tftp.Transfer.Transmit.{tftp_transmit_file}
use rted_tftp.Transfer.Blocks.{block_count, block_packets, ack_packets}
use rted_tftp.Transfer.Delivery.{arrivals, arrivals-map, block_packets-endian}
use rted_tftp.Operation.{operation_receive, mode_octet, OperationData}
use rted_tftp.Operation.Fill.{System, ready, tftp_fill_transfer_data}
use rted_tftp.Operation.Deletion.{FileSystem}
use rted_tftp.Request.{parsed, server_parse_request_data}
use rted_tftp.Request.Names.{IsName, EndsWith, opcode_of, request_packet-request_bytes}
use rted_tftp.Request.Layout.{request_bytes, IsTransfer}
use rted_tftp.Request.RoundTrip.{served, request_round_trip}
use rted_tftp.Task.{untouched, task_ended, server_task_start}
use rted_tftp.Client.{Memory, ended, client_start_operation}
use rted_tftp.Exchange.Sides.{inbox_set, inbox_set-IsQuiet, Offers, Accepts, blocks_to, acks_arrive}
use rted_tftp.Exchange.Filling.{supported_in_range}
use rted_tftp.Exchange.ServerSide.{task_start-sends}
use rted_tftp.Exchange.ClientSide.{start_operation-receives}

-- The request of the client at `b` is parsed at the server at `a`; its thread and the client, each
-- receiving just what the other one sends, both come to their ends, the thread's transmission returns
-- true and the client ends with success; and the file that the client has written is the server's.
abbrev pub Downloads :
    System
    → System
    → FileSystem
    → Memory
    → Host
    → Host
    → Address
    → Address
    → ℕ
    → OperationData
    → Net
    → Net
    → Bytes
    → Type 0
Downloads sysc syss fs mem hc hs a b data_socket op nc fresh file =
    (request : Bytes) × (served_op : OperationData) × (acks : List Arrival) × (blocks : List
      Arrival)
    × (op' : OperationData) × (s : Session) × (t : Session) × (kept : FileHandle) × (ns : Net)
    × (mc : Net) × (server_parse_request_data hs fresh data_socket b (overlay (zeros 514) request)
          (length request)
        ≡ parsed (ns, some served_op))
    × (tftp_fill_transfer_data syss hs served_op true false (inbox_set ns acks) ≡ ready op' s)
    × (tftp_transmit_file hs s ≡ some (true, t))
    × (server_task_start syss fs hs false true served_op (inbox_set ns acks)
        ≡ task_ended (untouched (some t.tx.file)) t.net)
    × (client_start_operation sysc mem hc op (inbox_set nc blocks) ≡ ended true (some kept) mc)
    × (blocks ≡ arrivals a t.net.sent)
    × (packet b request ∷ acks ≡ arrivals b mc.sent)
    × (kept.written ≡ file)

-- A client asks a server for a file whose size is no multiple of the block size, in octet mode, with a
-- block size from 8 to 65464 and a name of at most 255 bytes with neither zeros nor slashes. The server
-- has the file, which can be read; the client has none at its path and room for it; memory lasts on
-- both sides, no signal arrives and no `sendto` fails. Then the server parses the request, its thread
-- and the client, each receiving just what the other one sends, come to their ends, the thread's
-- transmission returns true, the client ends with success, and the file that the client has written is
-- the server's. The two hosts may differ in byte order.
pub download-Downloads :
    (sysc syss : System) (fs : FileSystem) (mem : Memory) (hc hs : Host) (a b : Address)
    (data_socket : ℕ) (op : OperationData) (nc fresh : Net) (name : Bytes)
    (source target : FileHandle)
    → IsName name
    → EndsWith op name
    → op.operation_id ≡ operation_receive
    → op.transfer_mode ≡ mode_octet
    → tftp_blksize_min ≤ op.block_size
    → op.block_size ≤ tftp_blksize_max
    → mem.transfer_allocated ≡ true
    → Offers syss (server_storage_path ++ name) source
    → Accepts sysc op.path (length source.unread) target
    → IsQuiet nc
    → IsQuiet fresh
    → nc.sent ≡ []
    → fresh.sent ≡ []
    → 0 < length source.unread % op.block_size
    → Downloads sysc syss fs mem hc hs a b data_socket op nc fresh source.unread
download-Downloads sysc syss fs mem hc hs a b data_socket op nc fresh name source target is_name
      ends o m lo hi allocated offer accept qc qs none_sent none_out uneven =
    let bs = op.block_size in
    let file = source.unread in
    let request = request_bytes (opcode_of op.operation_id) name (codes "octet") bs in
    let transfer : IsTransfer op.operation_id = subst IsTransfer (sym o) tt in
    let is_request = request_packet-request_bytes hc.endian op name is_name ends transfer m in
    let parse =
      request_round_trip hc.endian op name request hs fresh data_socket b is_name ends transfer m lo
        hi is_request in
    let ns : Net = record fresh { peer_address = b } in
    let sop = served operation_receive data_socket name bs in
    let acks = map (packet b) (ack_packets hs.endian 0 (block_count bs file)) in
    let blocks = map (packet a) (block_packets hc.endian bs file 0 (block_count bs file)) in
    let (op', s, t, filled, sends, task, log) =
      task_start-sends syss fs hs sop (inbox_set ns acks) bs b source (omega arith) refl
        (supported_in_range bs lo hi) offer
        record { no_signal = qs.no_signal; no_loss = qs.no_loss } refl refl in
    let (kept, mc, client, written, out) =
      start_operation-receives sysc mem hc op (inbox_set nc blocks) a request file target lo hi o
        allocated is_request accept (inbox_set-IsQuiet nc blocks qc) refl uneven in
    (
      request,
      sop,
      acks,
      blocks,
      op',
      s,
      t,
      kept,
      ns,
      mc,
      parse ∙ ap (λ i. parsed (ns, some (served i data_socket name bs))) o,
      filled,
      sends,
      task,
      client,
      ap (map (packet a)) (block_packets-endian hc.endian hs.endian bs file 0 (block_count bs file))
          ∙ sym (
              ap (arrivals a) (log ∙ ap (λ l. l ++ blocks_to hs.endian bs b file) none_out)
              ∙ arrivals-map a b (block_packets hs.endian bs file 0 (block_count bs file))),
      acks_arrive hc.endian hs.endian bs b a (record { to = nc.peer_address; bytes = request })
          nc.sent mc.sent file none_sent out,
      written,
    )
