-- ===== src/Slots.antt =====
-- server.h and server.c: the table of connection slots that the listener shares with the operation
-- threads. Each function runs under `slots_mutex` from its first access to the last, so a call is one
-- step. An operation's data is known by a number, its address; `none` is the null pointer.
pub mod Count
pub mod Threads
use rted_tftp.Base.{
  ℕ, suc, ◌+◌, ◌-◌, Bool, true, false, List, [], ◌∷◌, Option, none, some, ltb, replicate, set,
  if◌then◌else◌,
}
use rted_tftp.Protocol.{server_max_connections}

pub record ServerSlots : Type 0 where
  pub free_slots_count : ℕ
  pub slot_occupied_flags : List Bool
  pub slot_op_data : List (Option ℕ)
  pub slot_thread_handles : List ℕ

-- `server_init_slots_data`: all slots free.
unfoldable pub server_init_slots_data : ServerSlots
server_init_slots_data = record {
  free_slots_count = server_max_connections;
  slot_occupied_flags = replicate server_max_connections false;
  slot_op_data = replicate server_max_connections none;
  slot_thread_handles = replicate server_max_connections 0;
}

-- The loop over the flags from index `i` on: the first one that is not set.
unfoldable pub first_free : ℕ → List Bool → Option ℕ
first_free i [] = none
first_free i (true ∷ flags) = first_free (suc i) flags
first_free i (false ∷ flags) = some i

-- `server_acquire_connection_slot`; `none` is the return value -1.
unfoldable pub server_acquire_connection_slot : ServerSlots → ServerSlots × Option ℕ
server_acquire_connection_slot s =
    if ltb 0 s.free_slots_count
    then elim (first_free 0 s.slot_occupied_flags) [
      | none ↦ (s, none)
      | some i ↦ (
        record s {
          slot_occupied_flags = set s.slot_occupied_flags i true;
          free_slots_count = s.free_slots_count - 1;
        },
        some i,
      )
    ]
    else (s, none)

-- `server_release_connection_slot`
unfoldable pub server_release_connection_slot : ServerSlots → ℕ → ServerSlots
server_release_connection_slot s slot_index = record s {
  slot_occupied_flags = set s.slot_occupied_flags slot_index false;
  free_slots_count = s.free_slots_count + 1;
}
