-- ===== src/Slots/Threads/Ownership.antt =====
-- Each occupied slot has exactly one owner, the listener, one thread, or one thread that could not be
-- created: the invariant and its parts.
use rted_tftp.Base.{
  ℕ, zero, suc, ◌+◌, ◌<◌, ◌≤◌, ◌≡◌, refl, Bool, true, false, List, [], ◌∷◌, ◌++◌, Option, none,
  some, length, set, get_elem?, arith, ◌==◌, if◌then◌else◌, length-set, All, get_elem?-set_ne, ◌∙◌,
}
use rted_tftp.Protocol.{server_max_connections}
use rted_tftp.Slots.{ServerSlots, server_release_connection_slot}
use rted_tftp.Slots.Count.{IsConsistent, free_count-set-false}
use rted_tftp.Slots.Threads.{Task, Server}

abbrev pub one_if : Bool → ℕ
one_if b = if b then 1 else 0

abbrev pub tasks_at : ℕ → List Task → ℕ
tasks_at j [] = 0
tasks_at j (t ∷ ts) = one_if (t.task_slot_idx == j) + tasks_at j ts

abbrev pub held_at : ℕ → Option ℕ → ℕ
held_at j none = 0
held_at j (some i) = one_if (i == j)

-- How many threads, the listener and those never started among them, slot `j` was given to.
abbrev pub owners : ℕ → Server → ℕ
owners j s = held_at j s.acquired_slot + tasks_at j s.tasks + tasks_at j s.stranded

abbrev pub flag_bit : Option Bool → ℕ
flag_bit none = 0
flag_bit (some b) = one_if b

abbrev pub held_count : Option ℕ → ℕ
held_count none = 0
held_count (some i) = 1

pub record Inv (s : Server) : Type 0 where
  pub consistent : IsConsistent s.slots
  pub data_sized : length s.slots.slot_op_data ≡ server_max_connections
  pub owned : (j : ℕ) → owners j s ≡ flag_bit (get_elem? s.slots.slot_occupied_flags j)
  pub capacity :
      length s.tasks + length s.stranded + held_count s.acquired_slot + s.slots.free_slots_count
      ≡ server_max_connections
  pub assigned :
      All (λ t. get_elem? s.slots.slot_op_data t.task_slot_idx ≡ some (some t.op_data)) s.tasks

pub flag_bit-set-true :
    (flags : List Bool) (i j : ℕ)
    → get_elem? flags i ≡ some false
    → flag_bit (get_elem? (set flags i true) j) ≡ one_if (i == j) + flag_bit (get_elem? flags j)
flag_bit-set-true [] i j h = cc
flag_bit-set-true (b ∷ flags) zero zero h = ground arith
flag_bit-set-true (b ∷ flags) zero (suc j) h = ground arith
flag_bit-set-true (b ∷ flags) (suc i) zero h = ground arith
flag_bit-set-true (b ∷ flags) (suc i) (suc j) h = ground (arith, flag_bit-set-true flags i j h)

pub flag_bit-set-false :
    (flags : List Bool) (i j : ℕ)
    → get_elem? flags i ≡ some true
    → one_if (i == j) + flag_bit (get_elem? (set flags i false) j) ≡ flag_bit (get_elem? flags j)
flag_bit-set-false [] i j h = cc
flag_bit-set-false (b ∷ flags) zero zero h = ground arith
flag_bit-set-false (b ∷ flags) zero (suc j) h = ground arith
flag_bit-set-false (b ∷ flags) (suc i) zero h = ground arith
flag_bit-set-false (b ∷ flags) (suc i) (suc j) h = ground (arith, flag_bit-set-false flags i j h)

pub flag_set : (o : Option Bool) → 0 < flag_bit o → o ≡ some true
flag_set none h = absurd (omega arith)
flag_set (some true) h = refl
flag_set (some false) h = absurd (omega arith)

pub tasks_at-middle :
    (j : ℕ) (xs : List Task) (t : Task) (ys : List Task)
    → tasks_at j (xs ++ (t ∷ ys)) ≡ one_if (t.task_slot_idx == j) + tasks_at j (xs ++ ys)
tasks_at-middle j [] t ys = refl
tasks_at-middle j (x ∷ xs) t ys = omega (arith, tasks_at-middle j xs t ys)

-- Storing into a slot that no task has leaves the data of every task alone.
pub assigned-set :
    (d : List (Option ℕ)) (i : ℕ) (v : Option ℕ) (ts : List Task)
    → tasks_at i ts ≡ 0
    → All (λ t. get_elem? d t.task_slot_idx ≡ some (some t.op_data)) ts
    → All (λ t. get_elem? (set d i v) t.task_slot_idx ≡ some (some t.op_data)) ts
assigned-set d i v [] z h = tt
assigned-set d i v (t ∷ ts) z h = (
  get_elem?-set_ne d i t.task_slot_idx v (λ e. ground arith) ∙ h.0,
  assigned-set d i v ts (omega arith) h.1,
)

pub release-IsConsistent :
    (s : ServerSlots) (i : ℕ)
    → IsConsistent s
    → get_elem? s.slot_occupied_flags i ≡ some true
    → IsConsistent (server_release_connection_slot s i)
unfolding server_release_connection_slot
release-IsConsistent s i v h = record {
  sized = length-set s.slot_occupied_flags i false ∙ v.sized;
  counted = omega (arith, free_count-set-false s.slot_occupied_flags i h, v.counted);
}

pub flag_bit-le_one : (o : Option Bool) → flag_bit o ≤ 1
flag_bit-le_one none = omega arith
flag_bit-le_one (some true) = omega arith
flag_bit-le_one (some false) = omega arith
