-- ===== src/Tests/SlotsTests.antt =====
-- The slot table and its threads on a short run: two requests are accepted, and the first ends.
use rted_tftp.Base.{◌+◌, ◌≤◌, ◌≡◌, refl, [], ◌∷◌, some, none, length, get_elem?}
use rted_tftp.Protocol.{server_max_connections}
use rted_tftp.Slots.{server_init_slots_data, server_acquire_connection_slot, first_free}
use rted_tftp.Slots.Count.{Acquires, acquire-Acquires, init-IsConsistent, free_count}
use rted_tftp.Slots.Threads.{
  Server, Task, initial, accept, spawn, Reach, here, next, assign_operation,
}
use rted_tftp.Slots.Threads.Ownership.{owners, flag_bit}
use rted_tftp.Slots.Threads.Ending.{Reach-recovers}
use rted_tftp.Slots.Threads.Guarantees.{Reach-owners, Reach-assigned}

runs_acquire :
    (server_acquire_connection_slot (server_acquire_connection_slot server_init_slots_data).0).1
    ≡ some 1
unfolding server_acquire_connection_slot server_init_slots_data first_free
runs_acquire = refl

acquire-Acquires_example :
    Acquires server_init_slots_data (server_acquire_connection_slot server_init_slots_data)
acquire-Acquires_example = acquire-Acquires server_init_slots_data init-IsConsistent

abbrev accepted : Server
accepted = record initial {
  slots = (server_acquire_connection_slot initial.slots).0;
  acquired_slot = some 0;
}

abbrev started : Task
started = record { task_slot_idx = 0; op_data = 77 }

abbrev running : Server
running = record accepted {
  slots = assign_operation accepted.slots 0 77 9;
  acquired_slot = none;
  tasks = started ∷ [];
}

running_reached : Reach initial running
unfolding server_acquire_connection_slot server_init_slots_data first_free
running_reached = next (next here (accept initial 0 refl refl)) (spawn accepted 0 77 9 refl)

Reach-owners_example :
    (owners 0 running ≡ flag_bit (get_elem? running.slots.slot_occupied_flags 0))
    × (owners 0 running ≤ 1)
    × (running.slots.free_slots_count ≡ free_count running.slots.slot_occupied_flags)
Reach-owners_example = Reach-owners running_reached 0

Reach-assigned_example : get_elem? running.slots.slot_op_data 0 ≡ some (some 77)
Reach-assigned_example = Reach-assigned [] started [] running_reached refl

Reach-recovers_example :
    (u : Server) × Reach running u
    × (u.tasks ≡ [])
    × (u.acquired_slot ≡ none)
    × (u.slots.free_slots_count + length running.stranded ≡ server_max_connections)
    × (free_count u.slots.slot_occupied_flags + length running.stranded ≡ server_max_connections)
Reach-recovers_example = Reach-recovers running_reached
