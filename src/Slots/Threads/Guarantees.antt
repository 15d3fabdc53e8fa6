-- ===== src/Slots/Threads/Guarantees.antt =====
-- What the slot table guarantees in every reachable state.
use rted_tftp.Base.{ℕ, ◌+◌, ◌≤◌, ◌≡◌, List, ◌∷◌, ◌++◌, some, length, get_elem?, arith, All-middle}
use rted_tftp.Protocol.{server_max_connections}
use rted_tftp.Slots.Count.{free_count}
use rted_tftp.Slots.Threads.{Task, Server, initial, Reach}
use rted_tftp.Slots.Threads.Ownership.{held_count, owners, flag_bit, flag_bit-le_one}
use rted_tftp.Slots.Threads.Steps.{Reach-Inv}

-- In every interleaving of the listener and the operation threads, each slot has as many owners as
-- its flag says (one if it is set, none if not, and none past the table), where an owner is the
-- listener, a running thread, or a thread that `pthread_create` could not start; so no two threads
-- share a slot, and the free count is the number of flags that are not set.
pub Reach-owners :
    {s : Server}
    → Reach initial s
    → (j : ℕ)
    → (owners j s ≡ flag_bit (get_elem? s.slots.slot_occupied_flags j))
      × (owners j s ≤ 1)
      × (s.slots.free_slots_count ≡ free_count s.slots.slot_occupied_flags)
Reach-owners r j =
    let v = Reach-Inv r in
    (v.owned j, omega (arith, v.owned j, flag_bit-le_one (get_elem? _ j)), v.consistent.counted)

-- In every interleaving, the slot of a running thread still holds the operation data that the
-- thread was created for.
pub Reach-assigned :
    {s : Server} (before : List Task) (t : Task) (after : List Task)
    → Reach initial s
    → s.tasks ≡ before ++ (t ∷ after)
    → get_elem? s.slots.slot_op_data t.task_slot_idx ≡ some (some t.op_data)
Reach-assigned {s} before t after r e =
    All-middle (λ u. get_elem? s.slots.slot_op_data u.task_slot_idx ≡ some (some u.op_data)) before
      t after (rw e at (Reach-Inv r).assigned)

-- In every interleaving, the running threads, those that could not be created, the request that the
-- listener has accepted and not yet handed over, and the free slots are five together, so at most five
-- operations run at a time.
pub Reach-capacity :
    {s : Server}
    → Reach initial s
    → (length s.tasks + length s.stranded + held_count s.acquired_slot + s.slots.free_slots_count
        ≡ server_max_connections)
      × (length s.tasks ≤ server_max_connections)
Reach-capacity r = let v = Reach-Inv r in (v.capacity, omega (arith, v.capacity))
