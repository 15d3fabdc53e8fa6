-- ===== src/Slots/Threads.antt =====
-- The listener thread and the operation threads, as interleavings of their steps on the slot table:
-- `server_try_create_operation_thread` on the one side, `server_task_release` at the end of
-- `server_task_start` on the other.
pub mod Ownership
pub mod Steps
pub mod Guarantees
pub mod Ending
use rted_tftp.Base.{ℕ, ◌≡◌, List, [], ◌∷◌, ◌++◌, Option, none, some, set}
use rted_tftp.Slots.{
  ServerSlots, server_init_slots_data, server_acquire_connection_slot,
  server_release_connection_slot,
}

-- A running operation thread: its slot, and the operation data it was created for.
pub record Task : Type 0 where
  pub task_slot_idx : ℕ
  pub op_data : ℕ

-- `acquired_slot` is the listener's slot between its acquisition and the thread's creation; `stranded`
-- are the tasks whose thread `pthread_create` has not started, a failure that the code does not see.
pub record Server : Type 0 where
  pub slots : ServerSlots
  pub acquired_slot : Option ℕ
  pub tasks : List Task
  pub stranded : List Task

abbrev pub initial : Server
initial = record { slots = server_init_slots_data; acquired_slot = none; tasks = []; stranded = [] }

-- The operation's data and the handle that `pthread_create` leaves are stored in the slot.
unfoldable pub assign_operation : ServerSlots → ℕ → ℕ → ℕ → ServerSlots
assign_operation s i op handle = record s {
  slot_op_data = set s.slot_op_data i (some op);
  slot_thread_handles = set s.slot_thread_handles i handle;
}

pub data Step : Server → Server → Type 0 where
  -- No slot is free: the request is answered with an error.
  reject :
      (s : Server)
      → s.acquired_slot ≡ none
      → (server_acquire_connection_slot s.slots).1 ≡ none
      → Step s (record s { slots = (server_acquire_connection_slot s.slots).0 })
  accept :
      (s : Server) (i : ℕ)
      → s.acquired_slot ≡ none
      → (server_acquire_connection_slot s.slots).1 ≡ some i
      → Step s
          (record s { slots = (server_acquire_connection_slot s.slots).0; acquired_slot = some i })
  -- The request does not parse: the listener gives its slot back.
  give_back :
      (s : Server) (i : ℕ)
      → s.acquired_slot ≡ some i
      → Step s (record s { slots = server_release_connection_slot s.slots i; acquired_slot = none })
  -- The operation data is stored and `pthread_create` starts a thread.
  spawn :
      (s : Server) (i op handle : ℕ)
      → s.acquired_slot ≡ some i
      → Step s (record s {
        slots = assign_operation s.slots i op handle;
        acquired_slot = none;
        tasks = record { task_slot_idx = i; op_data = op } ∷ s.tasks;
      })
  -- The operation data is stored and `pthread_create` fails: the slot stays taken, without a thread.
  strand :
      (s : Server) (i op handle : ℕ)
      → s.acquired_slot ≡ some i
      → Step s (record s {
        slots = assign_operation s.slots i op handle;
        acquired_slot = none;
        stranded = record { task_slot_idx = i; op_data = op } ∷ s.stranded;
      })
  -- Any thread may end: `server_task_release`.
  task_release :
      (s : Server) (before : List Task) (t : Task) (after : List Task)
      → s.tasks ≡ before ++ (t ∷ after)
      → Step s (record s {
        slots = server_release_connection_slot s.slots t.task_slot_idx;
        tasks = before ++ after;
      })

pub data Reach (s : Server) : Server → Type 0 where
  here : Reach s s
  next : {t u : Server} → Reach s t → Step t u → Reach s u
