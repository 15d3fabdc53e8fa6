-- ===== src/Task.antt =====
-- server.c, `server_task_start`: an operation thread, from its operation's data to the release of its
-- slot, which is a step of Slots/Threads.
pub mod Upload
use rted_tftp.Base.{Bool, true, false, Option, none, some, if◌then◌else◌}
use rted_tftp.Net.{Host, Net, tftp_send_ack}
use rted_tftp.Transfer.{FileHandle, Session}
use rted_tftp.Transfer.Transmit.{tftp_transmit_file}
use rted_tftp.Transfer.Receive.{Outcome, finished, overran, spent, tftp_receive_file}
use rted_tftp.Operation.{
  OperationId, operation_undefined, operation_receive, operation_send, operation_request_delete,
  operation_handle_delete, OperationData,
}
use rted_tftp.Operation.Fill.{System, Filled, ready, unready, tftp_fill_transfer_data}
use rted_tftp.Operation.Deletion.{FileSystem, server_delete_file}

-- What the thread leaves in the storage: what was there, with the file that is open where a transfer
-- did not begin; a file that was received; or no file, since it was removed.
pub data Stored : Type 0 where
  untouched : Option FileHandle → Stored
  received : FileHandle → Stored
  removed : Stored

-- The end of the thread; a read past a buffer, with the transfer as it is then; a read through a null
-- pointer; or fuel that was not enough.
pub data TaskEnd : Type 0 where
  task_ended : Stored → Net → TaskEnd
  task_overread : Session → TaskEnd
  task_crashed : TaskEnd
  task_starved : TaskEnd

-- A file that was not received whole is closed and removed.
unfoldable pub after_upload : Outcome → TaskEnd
after_upload (finished true s) = task_ended (received s.tx.file) s.net
after_upload (finished false s) = task_ended removed s.net
after_upload (overran s) = task_overread s
after_upload spent = task_starved

unfoldable pub acknowledged_upload : Host → Session → Bool × Net → TaskEnd
acknowledged_upload h s (true, n) = after_upload (tftp_receive_file h (record s { net = n }))
acknowledged_upload h s (false, n) = task_ended (untouched (some s.tx.file)) n

unfoldable pub upload : Host → Filled → TaskEnd
upload h (unready file n) = task_ended (untouched file) n
upload h (ready op s) = acknowledged_upload h s (tftp_send_ack h 0 s.net)

unfoldable pub after_download : Option (Bool × Session) → TaskEnd
after_download none = task_starved
after_download (some (outcome, s)) = task_ended (untouched (some s.tx.file)) s.net

unfoldable pub download : Host → Filled → TaskEnd
download h (unready file n) = task_ended (untouched file) n
download h (ready op s) = after_download (tftp_transmit_file h s)

unfoldable pub delete : Bool × Net → TaskEnd
delete (true, n) = task_ended removed n
delete (false, n) = task_ended (untouched none) n

-- `tftp_free_transfer_data`, which reads the fields of the structure even where its pointer is null.
unfoldable pub task_freed : Bool → TaskEnd → TaskEnd
task_freed true ending = ending
task_freed false ending = task_crashed

-- The switch over the operation; `allocated` is whether `malloc` gives the transfer data.
unfoldable pub run_task :
    System → FileSystem → Host → Bool → OperationData → Net → OperationId → TaskEnd
run_task sys fs h allocated op n operation_receive =
    task_freed allocated (upload h (tftp_fill_transfer_data sys h op allocated true n))
run_task sys fs h allocated op n operation_send =
    task_freed allocated (download h (tftp_fill_transfer_data sys h op allocated false n))
run_task sys fs h allocated op n operation_handle_delete = delete (server_delete_file h fs op n)
run_task sys fs h allocated op n operation_request_delete = task_ended (untouched none) n
run_task sys fs h allocated op n operation_undefined = task_ended (untouched none) n

-- `server_task_start`, with what it finds `should_terminate` to be.
unfoldable pub server_task_start :
    System → FileSystem → Host → Bool → Bool → OperationData → Net → TaskEnd
server_task_start sys fs h true allocated op n = task_ended (untouched none) n
server_task_start sys fs h false allocated op n = run_task sys fs h allocated op n op.operation_id
