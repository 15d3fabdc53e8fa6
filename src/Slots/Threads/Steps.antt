-- ===== src/Slots/Threads/Steps.antt =====
-- Every step of the listener and of the threads keeps the ownership invariant.
use rted_tftp.Base.{
  ℕ, zero, suc, ◌+◌, ◌<◌, ◌≡◌, refl, true, List, ◌∷◌, ◌++◌, Option, none, some, length, get_elem?,
  arith, ◌==◌, length-set, length-append, All-drop_middle, get_elem?-lt, get_elem?-set_self, ◌∙◌,
  subst,
}
use rted_tftp.Slots.{
  ServerSlots, server_init_slots_data, server_acquire_connection_slot,
  server_release_connection_slot,
}
use rted_tftp.Slots.Count.{Acquires, acquire-Acquires, free_count-set-true, init-IsConsistent}
use rted_tftp.Slots.Threads.{
  Task, Server, initial, assign_operation, Step, reject, accept, give_back, spawn, strand,
  task_release, Reach, here, next,
}
use rted_tftp.Slots.Threads.Ownership.{
  one_if, tasks_at, owners, flag_bit, Inv, flag_bit-set-true, flag_bit-set-false, flag_set,
  tasks_at-middle, assigned-set, release-IsConsistent, flag_bit-le_one,
}

init-Inv : Inv initial
unfolding server_init_slots_data
init-Inv = record {
  consistent = init-IsConsistent;
  data_sized = refl;
  owned = λ j. no_flag j;
  capacity = refl;
  assigned = tt;
}
  where
    no_flag : (j : ℕ) → 0 ≡ flag_bit (get_elem? initial.slots.slot_occupied_flags j)
    no_flag zero = refl
    no_flag (suc zero) = refl
    no_flag (suc (suc zero)) = refl
    no_flag (suc (suc (suc zero))) = refl
    no_flag (suc (suc (suc (suc zero)))) = refl
    no_flag (suc (suc (suc (suc (suc j))))) = refl

accept-Inv :
    (s : Server) (i : ℕ) (t : ServerSlots)
    → Inv s
    → s.acquired_slot ≡ none
    → t.slot_op_data ≡ s.slots.slot_op_data
    → Acquires s.slots (t, some i)
    → Inv (record s { slots = t; acquired_slot = some i })
accept-Inv s i t v idle same (free, taken, flags, count, stored, handles) = record {
  consistent = record {
    sized = rw flags (length-set s.slots.slot_occupied_flags i true ∙ v.consistent.sized);
    counted = rw flags (
        omega
          (arith, free_count-set-true s.slots.slot_occupied_flags i free, v.consistent.counted));
  };
  data_sized = rw same v.data_sized;
  owned = λ j. rw flags (
      omega
        (arith, flag_bit-set-true s.slots.slot_occupied_flags i j free, rw idle at (v.owned j)));
  capacity = omega (arith, count, rw idle at v.capacity);
  assigned = rw same v.assigned;
}

-- The slot that the listener holds, or that a thread has, is marked as occupied.
held_flag :
    (s : Server) (i : ℕ)
    → Inv s
    → 0 < owners i s
    → get_elem? s.slots.slot_occupied_flags i ≡ some true
held_flag s i v h = flag_set (get_elem? s.slots.slot_occupied_flags i) (omega (arith, v.owned i))

give_back-Inv :
    (s : Server) (i : ℕ)
    → Inv s
    → s.acquired_slot ≡ some i
    → Inv (record s { slots = server_release_connection_slot s.slots i; acquired_slot = none })
unfolding server_release_connection_slot
give_back-Inv s i v held = record {
  consistent = release-IsConsistent s.slots i v.consistent flag;
  data_sized = v.data_sized;
  owned = λ j.
      omega
        (arith, flag_bit-set-false s.slots.slot_occupied_flags i j flag, rw held at (v.owned j));
  capacity = omega (arith, rw held at v.capacity);
  assigned = v.assigned;
}
  where
    flag : get_elem? s.slots.slot_occupied_flags i ≡ some true
    flag = held_flag s i v (rw held (ground arith))

-- The slot that the listener holds is no thread's, and is in the table.
module _ (s : Server) (i : ℕ) (v : Inv s) (held : s.acquired_slot ≡ some i) where
  own :
      one_if (i == i) + tasks_at i s.tasks + tasks_at i s.stranded
      ≡ flag_bit (get_elem? s.slots.slot_occupied_flags i)
  own = rw held at (v.owned i)

  alone : tasks_at i s.tasks ≡ 0
  alone =
      let self : one_if (i == i) ≡ 1 = ground arith in
      omega (arith, own, self, flag_bit-le_one (get_elem? s.slots.slot_occupied_flags i))

  in_range : i < length s.slots.slot_op_data
  in_range = omega (
    arith,
    get_elem?-lt s.slots.slot_occupied_flags i true (held_flag s i v (rw held (ground arith))),
    v.data_sized,
    v.consistent.sized,
  )

  spawn-Inv :
      (op handle : ℕ)
      → Inv (record s {
        slots = assign_operation s.slots i op handle;
        acquired_slot = none;
        tasks = record { task_slot_idx = i; op_data = op } ∷ s.tasks;
      })
  unfolding assign_operation
  spawn-Inv op handle = record {
    consistent = record { sized = v.consistent.sized; counted = v.consistent.counted };
    data_sized = length-set s.slots.slot_op_data i (some op) ∙ v.data_sized;
    owned = λ j. omega (arith, rw held at (v.owned j));
    capacity = omega (arith, rw held at v.capacity);
    assigned = (
      get_elem?-set_self s.slots.slot_op_data i (some op) in_range,
      assigned-set s.slots.slot_op_data i (some op) s.tasks alone v.assigned,
    );
  }

  strand-Inv :
      (op handle : ℕ)
      → Inv (record s {
        slots = assign_operation s.slots i op handle;
        acquired_slot = none;
        stranded = record { task_slot_idx = i; op_data = op } ∷ s.stranded;
      })
  unfolding assign_operation
  strand-Inv op handle = record {
    consistent = record { sized = v.consistent.sized; counted = v.consistent.counted };
    data_sized = length-set s.slots.slot_op_data i (some op) ∙ v.data_sized;
    owned = λ j. omega (arith, rw held at (v.owned j));
    capacity = omega (arith, rw held at v.capacity);
    assigned = assigned-set s.slots.slot_op_data i (some op) s.tasks alone v.assigned;
  }

task_release-Inv :
    (s : Server) (before : List Task) (t : Task) (after : List Task)
    → Inv s
    → s.tasks ≡ before ++ (t ∷ after)
    → Inv (record s {
      slots = server_release_connection_slot s.slots t.task_slot_idx;
      tasks = before ++ after;
    })
unfolding server_release_connection_slot
task_release-Inv s before t after v e = record {
  consistent = release-IsConsistent s.slots t.task_slot_idx v.consistent flag;
  data_sized = v.data_sized;
  owned = λ j. omega (
    arith,
    flag_bit-set-false s.slots.slot_occupied_flags t.task_slot_idx j flag,
    rw e at (v.owned j),
    tasks_at-middle j before t after,
  );
  capacity =
      omega
        (arith, length-append before (t ∷ after), length-append before after, rw e at v.capacity);
  assigned =
      All-drop_middle (λ u. get_elem? s.slots.slot_op_data u.task_slot_idx ≡ some (some u.op_data))
        before t after (rw e at v.assigned);
}
  where
    self : one_if (t.task_slot_idx == t.task_slot_idx) ≡ 1
    self = ground arith

    flag : get_elem? s.slots.slot_occupied_flags t.task_slot_idx ≡ some true
    flag =
        held_flag s t.task_slot_idx v
          (rw e (omega (arith, self, tasks_at-middle t.task_slot_idx before t after)))

acquired-same_data :
    (s : ServerSlots) → (server_acquire_connection_slot s).0.slot_op_data ≡ s.slot_op_data
unfolding server_acquire_connection_slot
acquired-same_data s = ground arith

acquired_as :
    (s : ServerSlots) (r : ServerSlots × Option ℕ) (o : Option ℕ)
    → r.1 ≡ o
    → Acquires s r
    → Acquires s (r.0, o)
acquired_as s r o e = subst (λ p. Acquires s (r.0, p)) e

Step-Inv : {s t : Server} → Step s t → Inv s → Inv t
Step-Inv (reject s idle full) v =
    rw (acquired_as s.slots _ none full (acquire-Acquires s.slots v.consistent)).0 v
Step-Inv (accept s i idle got) v =
    accept-Inv s i _ v idle (acquired-same_data s.slots)
      (acquired_as s.slots _ (some i) got (acquire-Acquires s.slots v.consistent))
Step-Inv (give_back s i held) v = give_back-Inv s i v held
Step-Inv (spawn s i op handle held) v = spawn-Inv s i v held op handle
Step-Inv (strand s i op handle held) v = strand-Inv s i v held op handle
Step-Inv (task_release s before t after e) v = task_release-Inv s before t after v e

pub Reach-Inv : {s : Server} → Reach initial s → Inv s
Reach-Inv here = init-Inv
Reach-Inv (next r st) = Step-Inv st (Reach-Inv r)
