-- ===== src/Tests/ListenerTests.antt =====
-- The listener on concrete datagrams.
use rted_tftp.Base.{
  ℕ, ◌+◌, ◌≡◌, ◌≢◌, ◌≤◌, ◌<◌, ◌⊎◌, refl, [], ◌∷◌, ◌++◌, true, length, codes, Bytes,
}
use rted_tftp.Protocol.{server_max_connections}
use rted_tftp.Packet.{little, ntohs, load16, overlay}
use rted_tftp.Net.{Address, Host, Net, Arrival, packet, poll, recvfrom}
use rted_tftp.CLibrary.{c_string}
use rted_tftp.Operation.{
  operation_handle_delete, named_operation, tftp_init_operation_data, init_for,
}
use rted_tftp.Request.{server_parse_request_data, parse_opcode, stored_path}
use rted_tftp.Slots.{server_init_slots_data, server_acquire_connection_slot, first_free}
use rted_tftp.Slots.Count.{init-IsConsistent}
use rted_tftp.Slots.Threads.{assign_operation, Reach}
use rted_tftp.Listener.{
  Serving, Given, Started, goes_on, out_of_bounds, create_thread, on_datagram, on_opcode,
  is_request, server_try_create_operation_thread, with_slot, with_operation, listener_round, Serves,
  at_start, then_step, round,
}
use rted_tftp.Listener.Handling.{Keeps, on_datagram-Keeps}
use rted_tftp.Listener.Bounds.{opcode_read, on_datagram-within}
use rted_tftp.Listener.Refinement.{
  server_of, IsStart, HasSlot, Serves-Reach, Serves-exclusive, Serves-capacity,
}

abbrev ack : Bytes
ack = 0 ∷ 4 ∷ 0 ∷ 1 ∷ []

abbrev server : Host
server = record { endian = little; is_server = true }

abbrev client : Address
client = record { sin_addr = 2; sin_port = 50000 }

abbrev socket : Net
socket = record { polls = []; sends = []; inbox = []; peer_address = client; sent = [] }

abbrev serving : Serving
serving = record {
  requests = socket;
  slots = server_init_slots_data;
  started = [];
  stranded = [];
  refused = [];
}

abbrev given : Given
given = record {
  fresh = socket;
  data_socket = 4;
  op_data_ptr = 1000;
  thread_starts = true;
  thread_handle = 77;
}

-- A deletion of the file "a".
on_datagram-Keeps_example :
    Keeps given serving
      (on_datagram server given serving (packet client (0 ∷ 6 ∷ 97 ∷ 0 ∷ 0 ∷ 0 ∷ [])))
on_datagram-Keeps_example =
    on_datagram-Keeps server given serving (packet client (0 ∷ 6 ∷ 97 ∷ 0 ∷ 0 ∷ 0 ∷ []))
      init-IsConsistent

-- A datagram of an ACK is in bounds.
on_datagram-within_example :
    ((length ack ≤ 512)
      × (opcode_read server ack ≤ 6)
      × (on_datagram server given serving (packet client ack) ≢ out_of_bounds))
    ⊎ (((512 < length ack) ⊎ (6 < opcode_read server ack))
        × (on_datagram server given serving (packet client ack) ≡ out_of_bounds))
on_datagram-within_example = on_datagram-within server given serving client ack

-- Two deletions come in, for the files "a" and "b".
abbrev deletion : ℕ → Arrival
deletion c = packet client (0 ∷ 6 ∷ c ∷ 0 ∷ 0 ∷ 0 ∷ [])

abbrev busy : Serving
busy = record serving { requests = record socket { inbox = deletion 97 ∷ deletion 98 ∷ [] } }

abbrev thread : ℕ → ℕ → Started
thread i c = record {
  task_slot_idx = i;
  op_data_ptr = 1000;
  op_data =
      named_operation operation_handle_delete 4 (codes "DELETE") (codes "storage/" ++ (c ∷ []));
  data_net = socket;
}

abbrev one_running : Serving
one_running = record {
  requests = record socket { inbox = deletion 98 ∷ [] };
  slots = assign_operation (server_acquire_connection_slot server_init_slots_data).0 0 1000 77;
  started = thread 0 97 ∷ [];
  stranded = [];
  refused = [];
}

abbrev two_running : Serving
two_running = record {
  requests = socket;
  slots = assign_operation (server_acquire_connection_slot one_running.slots).0 1 1000 77;
  started = thread 1 98 ∷ thread 0 97 ∷ [];
  stranded = [];
  refused = [];
}

first_round : (listener_round server given busy).1 ≡ goes_on one_running
unfolding listener_round on_datagram on_opcode is_request server_try_create_operation_thread
    with_slot with_operation create_thread server_parse_request_data parse_opcode
    server_acquire_connection_slot server_init_slots_data first_free tftp_init_operation_data
    init_for poll recvfrom ntohs load16 overlay stored_path c_string assign_operation
first_round = refl

second_round : (listener_round server given one_running).1 ≡ goes_on two_running
unfolding listener_round on_datagram on_opcode is_request server_try_create_operation_thread
    with_slot with_operation create_thread server_parse_request_data parse_opcode
    server_acquire_connection_slot server_init_slots_data first_free tftp_init_operation_data
    init_for poll recvfrom ntohs load16 overlay stored_path c_string assign_operation
second_round = refl

two_served : Serves server busy two_running
two_served =
    then_step (then_step at_start (round given busy one_running first_round))
      (round given one_running two_running second_round)

Serves-Reach_example : Reach (server_of busy) (server_of two_running)
Serves-Reach_example = Serves-Reach two_served

busy-IsStart : IsStart busy
busy-IsStart = record { slots_are = refl; none_runs = refl; none_stranded = refl }

Serves-capacity_example :
    length two_running.started + length two_running.stranded + two_running.slots.free_slots_count
    ≡ server_max_connections
Serves-capacity_example = Serves-capacity busy-IsStart two_served

Serves-exclusive_example : HasSlot two_running (thread 0 97) (thread 1 98 ∷ [])
Serves-exclusive_example =
    Serves-exclusive (thread 1 98 ∷ []) (thread 0 97) [] busy-IsStart two_served refl
