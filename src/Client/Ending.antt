-- ===== src/Client/Ending.antt =====
-- How the client ends.
use rted_tftp.Base.{false, none, ◌≡◌}
use rted_tftp.Net.{Host, Net}
use rted_tftp.Operation.{OperationId, operation_receive, OperationData}
use rted_tftp.Request.{request_packet}
use rted_tftp.Client.{Ended, ended, exited, overread, crashed, starved, Memory}

-- The client returns; or it exits, where its request could not be allocated; or it reads past the
-- buffer of a reception, or through the null pointer of transfer data that was not allocated. Its fuel
-- is enough.
abbrev pub Ends : Host → Memory → OperationData → OperationId → Ended → Type 0
Ends h mem op o (ended outcome file n) = Unit {0}
Ends h mem op o exited = request_packet h.endian op ≡ none
Ends h mem op o (overread s) = o ≡ operation_receive
Ends h mem op o crashed = mem.transfer_allocated ≡ false
Ends h mem op o starved = ⊥
