-- ===== src/Client.antt =====
-- client.c, `client_start_operation`: the request, the waits, and the transfer.
pub mod Ending
pub mod Safety
use rted_tftp.Base.{ℕ, Bool, true, false, Option, none, some, Bytes}
use rted_tftp.Net.{Host, Net}
use rted_tftp.Transfer.{FileHandle, Session}
use rted_tftp.Transfer.Transmit.{tftp_transmit_file}
use rted_tftp.Transfer.Receive.{Outcome, finished, overran, spent, tftp_receive_file}
use rted_tftp.Transfer.Await.{tftp_await_acknowledgement}
use rted_tftp.Operation.{
  OperationId, operation_undefined, operation_receive, operation_send, operation_request_delete,
  operation_handle_delete, OperationData,
}
use rted_tftp.Operation.Fill.{System, Filled, ready, unready, tftp_fill_transfer_data}
use rted_tftp.Operation.Deletion.{confirm_deletion}
use rted_tftp.Request.{send_request_packet}

-- The end of the client: its outcome, with the file and the socket as they are then; an exit of the
-- program; a read past a buffer or through a null pointer; or fuel that was not enough, which never
-- happens.
pub data Ended : Type 0 where
  ended : Bool → Option FileHandle → Net → Ended
  exited : Ended
  overread : Session → Ended
  crashed : Ended
  starved : Ended

-- The memory that the two waits for acknowledgements get, and whether that of the transfer data is
-- there.
pub record Memory : Type 0 where
  pub first_buffer : Bytes
  pub second_buffer : Bytes
  pub transfer_allocated : Bool

unfoldable pub after_reception : Outcome → Ended
after_reception (finished outcome s) = ended outcome (some s.tx.file) s.net
after_reception (overran s) = overread s
after_reception spent = starved

unfoldable pub receive_filled : Host → Filled → Ended
receive_filled h (unready file n) = ended false file n
receive_filled h (ready op s) = after_reception (tftp_receive_file h s)

unfoldable pub after_transmission : Option (Bool × Session) → Ended
after_transmission none = starved
after_transmission (some (outcome, s)) = ended outcome (some s.tx.file) s.net

unfoldable pub transmit_filled : Host → Filled → Ended
transmit_filled h (unready file n) = ended false file n
transmit_filled h (ready op s) = after_transmission (tftp_transmit_file h s)

unfoldable pub after_deletion : Bool × Net → Ended
after_deletion (outcome, n) = ended outcome none n

-- `tftp_free_transfer_data`, which reads the fields of the structure even where its pointer is null.
unfoldable pub client_freed : Bool → Ended → Ended
client_freed true ending = ending
client_freed false ending = crashed

-- The request is acknowledged, or needs no acknowledgement.
unfoldable pub run_operation : System → Memory → Host → OperationData → Net → OperationId → Ended
run_operation sys mem h op n operation_request_delete =
    after_deletion (confirm_deletion h mem.second_buffer (true, n))
run_operation sys mem h op n operation_receive =
    client_freed mem.transfer_allocated
      (receive_filled h (tftp_fill_transfer_data sys h op mem.transfer_allocated true n))
run_operation sys mem h op n operation_send =
    client_freed mem.transfer_allocated
      (transmit_filled h (tftp_fill_transfer_data sys h op mem.transfer_allocated false n))
run_operation sys mem h op n operation_undefined = ended false none n
run_operation sys mem h op n operation_handle_delete = ended false none n

unfoldable pub after_acknowledgement : System → Memory → Host → OperationData → Bool × Net → Ended
after_acknowledgement sys mem h op (false, n) = ended false none n
after_acknowledgement sys mem h op (true, n) = run_operation sys mem h op n op.operation_id

-- A read request awaits no acknowledgement.
unfoldable pub await_request : Memory → Host → Net → OperationId → Bool × Net
await_request mem h n operation_receive = (true, n)
await_request mem h n operation_send = tftp_await_acknowledgement h 0 mem.first_buffer n
await_request mem h n operation_request_delete = tftp_await_acknowledgement h 0 mem.first_buffer n
await_request mem h n operation_undefined = tftp_await_acknowledgement h 0 mem.first_buffer n
await_request mem h n operation_handle_delete = tftp_await_acknowledgement h 0 mem.first_buffer n

unfoldable pub after_request : System → Memory → Host → OperationData → Option (Bool × Net) → Ended
after_request sys mem h op none = exited
after_request sys mem h op (some (false, n)) = ended false none n
after_request sys mem h op (some (true, n)) =
    after_acknowledgement sys mem h op (await_request mem h n op.operation_id)

-- `client_start_operation`
unfoldable pub client_start_operation : System → Memory → Host → OperationData → Net → Ended
client_start_operation sys mem h op n = after_request sys mem h op (send_request_packet h op n)
