-- ===== src/Listener/Handling.antt =====
-- What one datagram does to the server.
use rted_tftp.Base.{
  ℕ, suc, ◌≡◌, refl, sym, ap, ◌∙◌, ◌⊎◌, inl, inr, true, false, [], ◌∷◌, Option, none, some, length,
  Bool, get_elem?, set, Bytes, length-set, get_elem?-set_self, get_elem?-lt, arith, Bool-cases,
  subst,
}
use rted_tftp.Protocol.{opcode_strings}
use rted_tftp.Net.{Host, Arrival, packet, timed_out, failed}
use rted_tftp.Request.{Parsed, parsed, overread}
use rted_tftp.Slots.{ServerSlots, server_acquire_connection_slot, server_release_connection_slot}
use rted_tftp.Slots.Count.{
  IsConsistent, Acquires, acquire-Acquires, free_count, free_count-set-true, free_count-set-false,
}
use rted_tftp.Slots.Threads.{assign_operation}
use rted_tftp.Listener.{
  Started, Serving, Given, Handled, goes_on, out_of_bounds, create_thread, with_operation,
  with_slot, server_try_create_operation_thread, reject_opcode, is_request, on_opcode, prints_past,
  on_datagram,
}

-- The thread runs, or could not be created.
abbrev pub Created : Bool → Started → Serving → Serving → Type 0
Created true t l m = (m.started ≡ t ∷ l.started) × (m.stranded ≡ l.stranded)
Created false t l m = (m.started ≡ l.started) × (m.stranded ≡ t ∷ l.stranded)

-- The slots that a datagram uses up: none, or one that was free and is now taken, and holds the data of
-- the operation that a thread was to be created for.
abbrev pub Starts : Given → Serving → Serving → Type 0
Starts g l m =
    ((m.started ≡ l.started)
      × (m.stranded ≡ l.stranded)
      × (m.slots.free_slots_count ≡ l.slots.free_slots_count))
    ⊎ ((t : Started) × Created g.thread_starts t l m
        × (get_elem? l.slots.slot_occupied_flags t.task_slot_idx ≡ some false)
        × (get_elem? m.slots.slot_occupied_flags t.task_slot_idx ≡ some true)
        × (m.slots.slot_op_data ≡ set l.slots.slot_op_data t.task_slot_idx (some g.op_data_ptr))
        × (l.slots.free_slots_count ≡ suc m.slots.free_slots_count))

abbrev pub Keeps : Given → Serving → Handled → Type 0
Keeps g l (goes_on m) = IsConsistent m.slots × Starts g l m
Keeps g l out_of_bounds = Unit {0}

-- The table after an acquisition.
acquired-IsConsistent :
    (s t : ServerSlots) (i : ℕ) → IsConsistent s → Acquires s (t, some i) → IsConsistent t
acquired-IsConsistent s t i c (free, taken, flags, count, stored, handles) = record {
  sized = ap length flags ∙ length-set s.slot_occupied_flags i true ∙ c.sized;
  counted =
      let one = free_count-set-true s.slot_occupied_flags i free in
      let same : free_count t.slot_occupied_flags ≡ free_count (set s.slot_occupied_flags i true) =
        ap free_count flags in
      omega (arith, c.counted);
}

acquired_flag :
    (s t : ServerSlots) (i : ℕ)
    → Acquires s (t, some i)
    → get_elem? t.slot_occupied_flags i ≡ some true
acquired_flag s t i (free, taken, flags, count, stored, handles) =
    ap (λ f. get_elem? f i) flags
    ∙ get_elem?-set_self s.slot_occupied_flags i true
        (get_elem?-lt s.slot_occupied_flags i false free)

released-IsConsistent :
    (t : ServerSlots) (i : ℕ)
    → IsConsistent t
    → get_elem? t.slot_occupied_flags i ≡ some true
    → IsConsistent (server_release_connection_slot t i)
unfolding server_release_connection_slot
released-IsConsistent t i c e = record {
  sized = length-set t.slot_occupied_flags i false ∙ c.sized;
  counted = let one = free_count-set-false t.slot_occupied_flags i e in omega (arith, c.counted);
}

-- The thread for a slot that was just acquired is created, or not.
create_thread-Keeps :
    (g : Given) (l : Serving) (t : ServerSlots) (i : ℕ) (u : Started) (b : Bool)
    → IsConsistent l.slots
    → Acquires l.slots (t, some i)
    → g.thread_starts ≡ b
    → u.task_slot_idx ≡ i
    → Keeps g l (
        create_thread b (record l { slots = assign_operation t i g.op_data_ptr g.thread_handle }) u)
unfolding create_thread assign_operation
create_thread-Keeps g l t i u true c a e same =
    let table = acquired-IsConsistent l.slots t i c a in
    let (free, taken, flags, count, stored, handles) = a in
    (
      record { sized = table.sized; counted = table.counted },
      inr (
        u,
        rw e (refl, refl),
        rw same free,
        rw same (acquired_flag l.slots t i a),
        rw same (ap (λ cells. set cells i (some g.op_data_ptr)) stored),
        count,
      ),
    )
create_thread-Keeps g l t i u false c a e same =
    let table = acquired-IsConsistent l.slots t i c a in
    let (free, taken, flags, count, stored, handles) = a in
    (
      record { sized = table.sized; counted = table.counted },
      inr (
        u,
        rw e (refl, refl),
        rw same free,
        rw same (acquired_flag l.slots t i a),
        rw same (ap (λ cells. set cells i (some g.op_data_ptr)) stored),
        count,
      ),
    )

-- A slot that was just acquired: it goes to a thread, or back.
with_operation-Keeps :
    (g : Given) (l : Serving) (t : ServerSlots) (i : ℕ) (p : Parsed)
    → IsConsistent l.slots
    → Acquires l.slots (t, some i)
    → Keeps g l (with_operation g (record l { slots = t }) i p)
unfolding with_operation server_release_connection_slot
with_operation-Keeps g l t i overread c a = tt
with_operation-Keeps g l t i (parsed (n, none)) c a = (
  released-IsConsistent t i (acquired-IsConsistent l.slots t i c a) (acquired_flag l.slots t i a),
  inl (refl, refl, omega (arith, a.3)),
)
with_operation-Keeps g l t i (parsed (n, some op)) c a =
    create_thread-Keeps g l t i _ g.thread_starts c a refl refl

with_slot-Keeps :
    (h : Host) (g : Given) (buffer : Bytes) (received : ℕ) (l : Serving)
    (r : ServerSlots × Option ℕ)
    → IsConsistent l.slots
    → Acquires l.slots r
    → Keeps g l (with_slot h g buffer received (record l { slots = r.0 }) r.1)
unfolding with_slot
with_slot-Keeps h g buffer received l (t, none) c a =
    (subst IsConsistent (sym a.0) c, inl (refl, refl, ap (λ s. s.free_slots_count) a.0))
with_slot-Keeps h g buffer received l (t, some i) c a = with_operation-Keeps g l t i _ c a

on_opcode-Keeps :
    (h : Host) (g : Given) (buffer : Bytes) (received : ℕ) (l : Serving) (opcode : ℕ)
    → IsConsistent l.slots
    → Keeps g l (on_opcode h g buffer received l opcode)
unfolding on_opcode server_try_create_operation_thread reject_opcode
on_opcode-Keeps h g buffer received l opcode c = elim (Bool-cases (is_request opcode)) [
  | inl e ↦ rw e (
      with_slot-Keeps h g buffer received l (server_acquire_connection_slot l.slots) c
        (acquire-Acquires l.slots c))
  | inr e ↦ rw e (rejected (get_elem? opcode_strings opcode))
]
  where
    rejected : (name : Option Bytes) → Keeps g l (reject_opcode h l name)
    rejected none = tt
    rejected (some name) = (c, inl (refl, refl, refl))

-- On a consistent slot table a datagram, whatever it holds, leaves a consistent one where the listener
-- goes on: either no thread starts and no slot is used up, or just one slot is used up, which was free,
-- is taken now and holds the operation's data, and one thread starts on it, if `pthread_create`
-- succeeds; if it fails, the slot is used up without a thread.
pub on_datagram-Keeps :
    (h : Host) (g : Given) (l : Serving) (a : Arrival)
    → IsConsistent l.slots
    → Keeps g l (on_datagram h g l a)
unfolding on_datagram
on_datagram-Keeps h g l (packet from []) c = (c, inl (refl, refl, refl))
on_datagram-Keeps h g l (packet from (b ∷ bytes)) c = elim (Bool-cases (prints_past (b ∷ bytes))) [
  | inl e ↦ rw e tt
  | inr e ↦ rw e (on_opcode-Keeps h g _ _ l _ c)
]
on_datagram-Keeps h g l timed_out c = (c, inl (refl, refl, refl))
on_datagram-Keeps h g l failed c = (c, inl (refl, refl, refl))
