-- ===== src/Operation/Deletion.antt =====
-- The deletion of a file: server.c, `server_delete_file`, and the client's part of
-- `client_start_operation` in client.c.
pub mod Handshake
use rted_tftp.Base.{Bool, true, false, some, Bytes, codes, length, drop}
use rted_tftp.Protocol.{tftp_error_undefined, tftp_error_file_not_found, server_storage_path}
use rted_tftp.Net.{Host, Net, tftp_send_ack, tftp_send_error}
use rted_tftp.Operation.{OperationData}
use rted_tftp.Transfer.Await.{tftp_await_acknowledgement}

-- What the operating system answers: whether `fopen` and `remove` succeed, and `strerror`.
pub record FileSystem : Type 0 where
  pub opens : Bytes → Bool
  pub removes : Bytes → Bool
  pub strerror_errno : Bytes

unfoldable pub finish_deletion : Host → FileSystem → Net → Bool → Bool × Net
finish_deletion h fs n true = (true, (tftp_send_ack h 1 n).1)
finish_deletion h fs n false = (
  false,
  tftp_send_error h tftp_error_undefined (codes "failed to delete, server error: ")
      (some fs.strerror_errno) n,
)

unfoldable pub delete_if_found : Host → FileSystem → OperationData → Net → Bool → Bool × Net
delete_if_found h fs op n true = finish_deletion h fs n (fs.removes op.path)
delete_if_found h fs op n false = (
  false,
  tftp_send_error h tftp_error_file_not_found (codes "file not found: ")
      (some (drop (length server_storage_path) op.path)) n,
)

-- `server_delete_file`; the value is whether the file is gone.
unfoldable pub server_delete_file : Host → FileSystem → OperationData → Net → Bool × Net
server_delete_file h fs op n =
    let acknowledged = (tftp_send_ack h 0 n).1 in
    delete_if_found h fs op acknowledged (fs.opens op.path)

unfoldable pub confirm_deletion : Host → Bytes → Bool × Net → Bool × Net
confirm_deletion h buffer (true, n) = tftp_await_acknowledgement h 1 buffer n
confirm_deletion h buffer (false, n) = (false, n)

-- The client after its request went out: it awaits acknowledgement 0, then 1. The two calls get
-- their own buffers from `malloc`.
unfoldable pub await_deletion : Host → Bytes → Bytes → Net → Bool × Net
await_deletion h buffer buffer' n =
    confirm_deletion h buffer' (tftp_await_acknowledgement h 0 buffer n)
