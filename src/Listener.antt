-- ===== src/Listener.antt =====
-- server.c: the listener's handling of one datagram, `server_try_create_operation_thread` and the
-- body of `server_listener_loop`. The slot table is as it stands in this step; Slots/Threads has the
-- interleavings. `Serving` collects what the listener has started.
pub mod Handling
pub mod Bounds
pub mod Refinement
pub mod Loop
use rted_tftp.Base.{
  ℕ, ◌+◌, Bool, true, false, ◌||◌, List, [], ◌∷◌, ◌++◌, ◌≡◌, Option, none, some, length, get_elem?,
  min, ltb, Bytes, codes, if◌then◌else◌, ◌==◌,
}
use rted_tftp.Protocol.{
  opcode_strings, tftp_rrq, tftp_wrq, tftp_drq, tftp_error_out_of_space,
  tftp_error_illegal_operation,
}
use rted_tftp.Packet.{ntohs, raw_opcode, overlay, zeros}
use rted_tftp.Net.{
  Address, Host, Net, Arrival, packet, timed_out, failed, poll, recvfrom, tftp_send_error,
}
use rted_tftp.Operation.{OperationData, Initialised}
use rted_tftp.Request.{Parsed, parsed, overread, server_parse_request_data}
use rted_tftp.Slots.{ServerSlots, server_acquire_connection_slot, server_release_connection_slot}
use rted_tftp.Slots.Threads.{assign_operation}

-- An operation thread that was started: its slot, the operation with its address, and the operation's
-- socket.
pub record Started : Type 0 where
  pub task_slot_idx : ℕ
  pub op_data_ptr : ℕ
  pub op_data : OperationData
  pub data_net : Net

-- The requests socket, the slots, the threads that run, and those that `pthread_create` has not
-- started, whose slots stay taken. `sent` of `requests` is what the
-- listener has answered; `refused` are the sockets of requests that were refused while parsed.
pub record Serving : Type 0 where
  pub requests : Net
  pub slots : ServerSlots
  pub started : List Started
  pub stranded : List Started
  pub refused : List Net

-- What the operating system gives for one request: the socket that `tftp_init_operation_data` makes,
-- its number, the address that `malloc` gives for the operation data, whether `pthread_create` starts a
-- thread, and the handle that it leaves.
pub record Given : Type 0 where
  pub fresh : Net
  pub data_socket : ℕ
  pub op_data_ptr : ℕ
  pub thread_starts : Bool
  pub thread_handle : ℕ

-- The result of one step: the listener goes on, or it has read past a buffer or a table.
pub data Handled : Type 0 where
  goes_on : Serving → Handled
  out_of_bounds : Handled

-- `pthread_create`, whose result the code ignores.
unfoldable pub create_thread : Bool → Serving → Started → Handled
create_thread true l t = goes_on (record l { started = t ∷ l.started })
create_thread false l t = goes_on (record l { stranded = t ∷ l.stranded })

unfoldable pub with_operation : Given → Serving → ℕ → Parsed → Handled
with_operation g l i overread = out_of_bounds
with_operation g l i (parsed (n, none)) =
    goes_on (record l { slots = server_release_connection_slot l.slots i; refused = n ∷ l.refused })
with_operation g l i (parsed (n, some op)) =
    create_thread g.thread_starts
      (record l { slots = assign_operation l.slots i g.op_data_ptr g.thread_handle })
      record { task_slot_idx = i; op_data_ptr = g.op_data_ptr; op_data = op; data_net = n }

unfoldable pub with_slot : Host → Given → Bytes → ℕ → Serving → Option ℕ → Handled
with_slot h g buffer received l none = goes_on (record l {
  requests =
      tftp_send_error h tftp_error_out_of_space
        (codes "Server exceeded maximal connection count. Try again later!") none l.requests;
})
with_slot h g buffer received l (some i) =
    with_operation g l i
      (server_parse_request_data h g.fresh g.data_socket l.requests.peer_address buffer received)

-- `server_try_create_operation_thread`
unfoldable pub server_try_create_operation_thread : Host → Given → Bytes → ℕ → Serving → Handled
server_try_create_operation_thread h g buffer received l =
    let (slots, acquired_slot_idx) = server_acquire_connection_slot l.slots in
    with_slot h g buffer received (record l { slots = slots }) acquired_slot_idx

-- The answer to a datagram that is no request; its opcode's name is looked up in a table of seven.
unfoldable pub reject_opcode : Host → Serving → Option Bytes → Handled
reject_opcode h l none = out_of_bounds
reject_opcode h l (some name) = goes_on (record l {
  requests =
      tftp_send_error h tftp_error_illegal_operation
        (codes "received packet in requests socket with opcode ") (some name) l.requests;
})

unfoldable pub is_request : ℕ → Bool
is_request opcode = opcode == tftp_rrq || opcode == tftp_wrq || opcode == tftp_drq

unfoldable pub on_opcode : Host → Given → Bytes → ℕ → Serving → ℕ → Handled
on_opcode h g buffer received l opcode =
    let handled = server_try_create_operation_thread h g buffer received l in
    let rejected = reject_opcode h l (get_elem? opcode_strings opcode) in
    if is_request opcode then handled else rejected

-- The buffer of `sizeof(Packet_t) + 2 * 255` bytes, which is zeroed before every `recvfrom`.
abbrev pub request_buffer : Bytes → Bytes
request_buffer bytes = overlay (zeros 514) bytes

-- `bytes_received`: what does not fit in the buffer is cut off.
abbrev pub received_length : Bytes → ℕ
received_length bytes = min (length bytes) 514

-- The `fwrite` of `bytes_received` bytes from offset 2 of the buffer reads past its end.
abbrev pub prints_past : Bytes → Bool
prints_past bytes = ltb 514 (2 + received_length bytes)

unfoldable pub on_datagram : Host → Given → Serving → Arrival → Handled
on_datagram h g l (packet from []) = goes_on l
on_datagram h g l (packet from (b ∷ bytes)) =
    let buffer = request_buffer (b ∷ bytes) in
    let answered =
      on_opcode h g buffer (received_length (b ∷ bytes)) l
        (ntohs h.endian (raw_opcode h.endian buffer)) in
    if prints_past (b ∷ bytes) then out_of_bounds else answered
on_datagram h g l timed_out = goes_on l
on_datagram h g l failed = goes_on l

-- One round of `server_listener_loop`, from the loop's test on: whether the next test is reached, and
-- how. The flag is read again after `recvfrom`.
unfoldable pub listener_round : Host → Given → Serving → Bool × Handled
listener_round h g l =
    let (terminated_before, n) = poll l.requests in
    let (arrival, n') = recvfrom n in
    let (should_terminate, n'') = poll n' in
    let l' = record l { requests = n'' } in
    if terminated_before
    then (false, goes_on (record l { requests = n }))
    else if should_terminate
    then (false, goes_on l')
    else (true, on_datagram h g l' arrival)

-- The server while it runs: a round of the listener, or the end of any operation thread, whose last
-- step is `server_task_release`.
pub data ServerStep (h : Host) : Serving → Serving → Type 0 where
  round : (g : Given) (l m : Serving) → (listener_round h g l).1 ≡ goes_on m → ServerStep h l m
  ending :
      (l : Serving) (before : List Started) (t : Started) (after : List Started)
      → l.started ≡ before ++ (t ∷ after)
      → ServerStep h l (record l {
        slots = server_release_connection_slot l.slots t.task_slot_idx;
        started = before ++ after;
      })

pub data Serves (h : Host) (l : Serving) : Serving → Type 0 where
  at_start : Serves h l l
  then_step : {m k : Serving} → Serves h l m → ServerStep h m k → Serves h l k
