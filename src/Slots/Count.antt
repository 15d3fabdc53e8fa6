-- ===== src/Slots/Count.antt =====
-- The free count agrees with the flags, and what the two operations do under that invariant.
use rted_tftp.Base.{
  ℕ, zero, suc, ◌+◌, ◌≡◌, refl, ap, Bool, true, false, List, [], ◌∷◌, Option, none, some, length,
  set, get_elem?, arith, ltb,
}
use rted_tftp.Protocol.{server_max_connections}
use rted_tftp.Slots.{
  ServerSlots, server_init_slots_data, first_free, server_acquire_connection_slot,
}

abbrev pub free_count : List Bool → ℕ
free_count [] = 0
free_count (true ∷ flags) = free_count flags
free_count (false ∷ flags) = suc (free_count flags)

pub record IsConsistent (s : ServerSlots) : Type 0 where
  pub sized : length s.slot_occupied_flags ≡ server_max_connections
  pub counted : s.free_slots_count ≡ free_count s.slot_occupied_flags

-- The first `k` slots are taken.
abbrev pub AllTaken : ℕ → List Bool → Type 0
AllTaken zero flags = Unit
AllTaken (suc k) [] = ⊥
AllTaken (suc k) (true ∷ flags) = AllTaken k flags
AllTaken (suc k) (false ∷ flags) = ⊥

-- What the search returns, counted from the start `i`.
abbrev Found : ℕ → List Bool → Option ℕ → Type 0
Found i flags none = free_count flags ≡ 0
Found i flags (some j) = (k : ℕ) × (j ≡ i + k) × (get_elem? flags k ≡ some false) × AllTaken k flags

Found-suc :
    (i : ℕ) (flags : List Bool) (r : Option ℕ) → Found (suc i) flags r → Found i (true ∷ flags) r
Found-suc i flags none f = f
Found-suc i flags (some j) (k, e, free, taken) = (suc k, omega arith, free, taken)

first_free-Found : (i : ℕ) (flags : List Bool) → Found i flags (first_free i flags)
unfolding first_free
first_free-Found i [] = refl
first_free-Found i (true ∷ flags) =
    Found-suc i flags (first_free (suc i) flags) (first_free-Found (suc i) flags)
first_free-Found i (false ∷ flags) = (0, omega arith, refl, tt)

pub free_count-set-true :
    (flags : List Bool) (k : ℕ)
    → get_elem? flags k ≡ some false
    → free_count flags ≡ suc (free_count (set flags k true))
free_count-set-true [] k h = cc
free_count-set-true (true ∷ flags) zero h = cc
free_count-set-true (false ∷ flags) zero h = refl
free_count-set-true (true ∷ flags) (suc k) h = free_count-set-true flags k h
free_count-set-true (false ∷ flags) (suc k) h = ap suc (free_count-set-true flags k h)

pub free_count-set-false :
    (flags : List Bool) (k : ℕ)
    → get_elem? flags k ≡ some true
    → free_count (set flags k false) ≡ suc (free_count flags)
free_count-set-false [] k h = cc
free_count-set-false (false ∷ flags) zero h = cc
free_count-set-false (true ∷ flags) zero h = refl
free_count-set-false (true ∷ flags) (suc k) h = free_count-set-false flags k h
free_count-set-false (false ∷ flags) (suc k) h = ap suc (free_count-set-false flags k h)

pub init-IsConsistent : IsConsistent server_init_slots_data
unfolding server_init_slots_data
init-IsConsistent = record { sized = refl; counted = refl }

-- What an acquisition does: with no free slot it changes nothing and returns -1; otherwise it takes
-- the first free slot, sets that flag alone, lowers the count by one, and leaves the slots' operations
-- and threads as they are.
abbrev pub Acquires : ServerSlots → ServerSlots × Option ℕ → Type 0
Acquires s (t, none) = (t ≡ s) × (free_count s.slot_occupied_flags ≡ 0)
Acquires s (t, some i) =
    (get_elem? s.slot_occupied_flags i ≡ some false)
    × AllTaken i s.slot_occupied_flags
    × (t.slot_occupied_flags ≡ set s.slot_occupied_flags i true)
    × (s.free_slots_count ≡ suc t.free_slots_count)
    × (t.slot_op_data ≡ s.slot_op_data)
    × (t.slot_thread_handles ≡ s.slot_thread_handles)

Found-Acquires :
    (s : ServerSlots) (r : Option ℕ)
    → IsConsistent s
    → first_free 0 s.slot_occupied_flags ≡ r
    → Found 0 s.slot_occupied_flags r
    → Acquires s (server_acquire_connection_slot s)
unfolding server_acquire_connection_slot
Found-Acquires s none v e f =
    let full : ltb 0 s.free_slots_count ≡ false = ground arith in rw full (refl, f)
Found-Acquires s (some i) v e (k, at, free, taken) =
    let one = free_count-set-true s.slot_occupied_flags k free in
    let some_free : ltb 0 s.free_slots_count ≡ true = ground arith in
    let i_is : k ≡ i = omega arith in
    rw (some_free, e) (rw i_is at free, rw i_is at taken, refl, omega arith, refl, refl)

-- On a consistent table an acquisition returns -1 just when no slot is free, and then changes nothing;
-- otherwise it takes the first free slot, sets its flag, lowers the count by one, and leaves the slots'
-- operations and threads as they are.
pub acquire-Acquires :
    (s : ServerSlots) → IsConsistent s → Acquires s (server_acquire_connection_slot s)
acquire-Acquires s v =
    Found-Acquires s (first_free 0 s.slot_occupied_flags) v refl
      (first_free-Found 0 s.slot_occupied_flags)
