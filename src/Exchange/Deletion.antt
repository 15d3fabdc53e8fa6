-- ===== src/Exchange/Deletion.antt =====
-- A deletion: the client asks for the deletion of a file in the server's storage.
use rted_tftp.Base.{
  ℕ, ◌≤◌, ◌≡◌, refl, ap, ◌∙◌, Bool, true, false, ◌&&◌, List, [], ◌∷◌, ◌++◌, none, some, length,
  Bytes, Bool-cases, inl, inr,
}
use rted_tftp.Protocol.{server_storage_path}
use rted_tftp.Packet.{overlay, zeros}
use rted_tftp.Net.{Address, Host, Net, Arrival, deliver}
use rted_tftp.Net.Quiet.{IsQuiet}
use rted_tftp.Operation.{operation_request_delete, OperationData, named_operation}
use rted_tftp.Operation.Fill.{System}
use rted_tftp.Operation.Deletion.{
  FileSystem, finish_deletion, delete_if_found, server_delete_file, confirm_deletion,
  await_deletion,
}
use rted_tftp.Operation.Deletion.Handshake.{delivered, deletion_agreed}
use rted_tftp.Transfer.Await.{tftp_await_acknowledgement}
use rted_tftp.Transfer.Await.Frame.{await_acknowledgement-sent}
use rted_tftp.Request.{parsed, server_parse_request_data}
use rted_tftp.Request.Names.{IsName, EndsWith}
use rted_tftp.Request.Deletion.{
  delete_bytes, request_packet-delete_bytes, served_delete, delete_bytes-parsed,
}
use rted_tftp.Task.{Stored, untouched, removed, task_ended, delete, run_task, server_task_start}
use rted_tftp.Client.{
  Memory, ended, after_deletion, run_operation, after_acknowledgement, await_request, after_request,
  client_start_operation,
}
use rted_tftp.Exchange.Sides.{inbox_set, inbox_set-IsQuiet, asks}

-- What is left of the file.
abbrev pub left_by : Bool → Stored
left_by true = removed
left_by false = untouched none

delete_lem : (r : Bool × Net) → delete r ≡ task_ended (left_by r.0) r.1
unfolding delete
delete_lem (true, n) = refl
delete_lem (false, n) = refl

-- The server's answer, by what the file system does.
server_delete_file-outcome :
    (h : Host) (fs : FileSystem) (op : OperationData) (n : Net)
    → (server_delete_file h fs op n).0 ≡ (fs.opens op.path && fs.removes op.path)
unfolding server_delete_file delete_if_found finish_deletion
server_delete_file-outcome h fs op n = elim (Bool-cases (fs.opens op.path)) [
  | inl e ↦ elim (Bool-cases (fs.removes op.path)) [
    | inl f ↦ rw (e, f) refl
    | inr f ↦ rw (e, f) refl
  ]
  | inr e ↦ rw e refl
]

-- The client sends nothing while it waits.
confirm_deletion-sent :
    (h : Host) (buffer : Bytes) (r : Bool × Net) → (confirm_deletion h buffer r).1.sent ≡ r.1.sent
unfolding confirm_deletion
confirm_deletion-sent h buffer (true, n) = await_acknowledgement-sent h 1 buffer n
confirm_deletion-sent h buffer (false, n) = refl

await_deletion-sent :
    (h : Host) (buffer buffer' : Bytes) (n : Net)
    → (await_deletion h buffer buffer' n).1.sent ≡ n.sent
unfolding await_deletion
await_deletion-sent h buffer buffer' n =
    confirm_deletion-sent h buffer' _ ∙ await_acknowledgement-sent h 0 buffer n

-- The client's two waits.
waits :
    (sys : System) (mem : Memory) (h : Host) (op : OperationData) (r : Bool × Net)
    → op.operation_id ≡ operation_request_delete
    → after_acknowledgement sys mem h op r ≡ after_deletion (confirm_deletion h mem.second_buffer r)
unfolding after_acknowledgement after_deletion confirm_deletion run_operation
waits sys mem h op (false, n) o = refl
waits sys mem h op (true, n) o = ap (run_operation sys mem h op n) o

start_operation-deletes :
    (sys : System) (mem : Memory) (h : Host) (op : OperationData) (n : Net) (name : Bytes)
    → IsName name
    → EndsWith op name
    → op.operation_id ≡ operation_request_delete
    → IsQuiet n
    → client_start_operation sys mem h op n
      ≡ after_deletion
          (await_deletion h mem.first_buffer mem.second_buffer (deliver n (delete_bytes name)))
unfolding client_start_operation after_request await_request await_deletion
start_operation-deletes sys mem h op n name a p o q =
    let asked = deliver n (delete_bytes name) in
    ap (after_request sys mem h op)
      (asks h op n (delete_bytes name) (request_packet-delete_bytes h.endian op name a p o) q)
    ∙ ap (λ i. after_acknowledgement sys mem h op (await_request mem h asked i)) o
    ∙ waits sys mem h op (tftp_await_acknowledgement h 0 mem.first_buffer asked) o

-- The request, which is all that the client at `b` sends, is parsed at the server at `a`; its thread
-- deletes the file if it can, and the client, receiving just what the thread sends, ends with the same outcome.
abbrev pub Deletes :
    System
    → System
    → FileSystem
    → Memory
    → Host
    → Host
    → Address
    → Address
    → ℕ
    → OperationData
    → Net
    → Net
    → Bytes
    → Type 0
Deletes sysc syss fs mem hc hs a b data_socket op nc fresh name =
    (request : Bytes) × (served_op : OperationData) × (outcome : Bool) × (replies : List Arrival)
    × (ns : Net) × (mc : Net) × (ms : Net) × (server_parse_request_data hs fresh data_socket b
          (overlay (zeros 514) request) (length request)
        ≡ parsed (ns, some served_op))
    × (server_task_start syss fs hs false true served_op ns ≡ task_ended (left_by outcome) ms)
    × (client_start_operation sysc mem hc op (inbox_set nc replies) ≡ ended outcome none mc)
    × (mc.sent ≡ nc.sent ++ record { to = nc.peer_address; bytes = request } ∷ [])
    × (replies ≡ delivered a ms.sent)
    × (outcome
        ≡ (fs.opens (server_storage_path ++ name) && fs.removes (server_storage_path ++ name)))

-- A client asks for the deletion of a file whose name has at most 255 bytes with neither zeros nor
-- slashes. On sockets with no signal and no failing `sendto`, and with at least four bytes for each of
-- the client's waits, the client sends one request, the server parses it, its thread removes the file of that name exactly
-- if it can be opened and removed, and the client, receiving just what the thread sends, reports just
-- that. The two hosts may differ in byte order.
pub deletion-Deletes :
    (sysc syss : System) (fs : FileSystem) (mem : Memory) (hc hs : Host) (a b : Address)
    (data_socket : ℕ) (op : OperationData) (nc fresh : Net) (name : Bytes)
    → IsName name
    → EndsWith op name
    → op.operation_id ≡ operation_request_delete
    → 4 ≤ length mem.first_buffer
    → 4 ≤ length mem.second_buffer
    → IsQuiet nc
    → IsQuiet fresh
    → fresh.sent ≡ []
    → Deletes sysc syss fs mem hc hs a b data_socket op nc fresh name
unfolding server_task_start run_task deliver after_deletion named_operation
deletion-Deletes sysc syss fs mem hc hs a b data_socket op nc fresh name is_name ends o first second
      qc qs none_out =
    let ns : Net = record fresh { peer_address = b } in
    let sop = served_delete data_socket name in
    let served = server_delete_file hs fs sop ns in
    let replies = delivered a served.1.sent in
    let asked = deliver (inbox_set nc replies) (delete_bytes name) in
    let waited = await_deletion hc mem.first_buffer mem.second_buffer asked in
    let agreed : waited.0 ≡ served.0 =
      deletion_agreed hs hc fs sop a ns asked mem.first_buffer mem.second_buffer
        record { no_signal = qs.no_signal; no_loss = qs.no_loss } none_out first second refl in
    (
      delete_bytes name,
      sop,
      served.0,
      replies,
      ns,
      waited.1,
      served.1,
      delete_bytes-parsed hs fresh data_socket b name is_name,
      delete_lem served,
      start_operation-deletes sysc mem hc op (inbox_set nc replies) name is_name ends o
            (inbox_set-IsQuiet nc replies qc)
          ∙ ap (λ ok. ended ok none waited.1) agreed,
      await_deletion-sent hc mem.first_buffer mem.second_buffer asked,
      refl,
      server_delete_file-outcome hs fs sop ns,
    )
