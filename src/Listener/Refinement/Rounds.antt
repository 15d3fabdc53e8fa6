-- ===== src/Listener/Refinement/Rounds.antt =====
-- Each round of the listener, and each end of a thread, is a run of the steps of Slots/Threads.
use rted_tftp.Base.{
  Bool, true, false, ℕ, ◌≡◌, refl, ap, ◌∙◌, inl, inr, [], ◌∷◌, Option, none, some, get_elem?, Bytes,
  Bool-cases, subst, map, map-append,
}
use rted_tftp.Protocol.{opcode_strings}
use rted_tftp.Net.{Host, Net, Arrival, packet, timed_out, failed, poll, recvfrom}
use rted_tftp.Request.{Parsed, parsed, overread}
use rted_tftp.Slots.{ServerSlots, server_acquire_connection_slot}
use rted_tftp.Slots.Threads.{
  Task, Server, reject, accept, give_back, spawn, strand, task_release, assign_operation, Reach,
  here, next,
}
use rted_tftp.Listener.{
  Started, Serving, Given, Handled, goes_on, out_of_bounds, create_thread, with_operation,
  with_slot, server_try_create_operation_thread, reject_opcode, is_request, on_opcode, prints_past,
  on_datagram, listener_round, ServerStep, round, ending,
}

abbrev pub task_of : Started → Task
task_of t = record { task_slot_idx = t.task_slot_idx; op_data = t.op_data_ptr }

-- The abstract state, between two rounds of the listener.
abbrev pub server_of : Serving → Server
server_of l = record {
  slots = l.slots;
  acquired_slot = none;
  tasks = map task_of l.started;
  stranded = map task_of l.stranded;
}

-- The listener's state after a round is one that the abstract server can reach.
abbrev Implements : Serving → Handled → Type 0
Implements l (goes_on m) = Reach (server_of l) (server_of m)
Implements l out_of_bounds = Unit {0}

-- The abstract state with a slot acquired.
abbrev accepted : Serving → ServerSlots → ℕ → Server
accepted l t i = record {
  slots = t;
  acquired_slot = some i;
  tasks = map task_of l.started;
  stranded = map task_of l.stranded;
}

create_thread-Implements :
    (g : Given) (l : Serving) (t : ServerSlots) (i : ℕ) (u : Started) (b : Bool)
    → u.task_slot_idx ≡ i
    → u.op_data_ptr ≡ g.op_data_ptr
    → Reach (server_of l) (accepted l t i)
    → Implements l (
        create_thread b (record l { slots = assign_operation t i g.op_data_ptr g.thread_handle }) u)
unfolding create_thread
create_thread-Implements g l t i u true at stored r =
    rw (at, stored) (next r (spawn (accepted l t i) i g.op_data_ptr g.thread_handle refl))
create_thread-Implements g l t i u false at stored r =
    rw (at, stored) (next r (strand (accepted l t i) i g.op_data_ptr g.thread_handle refl))

with_operation-Implements :
    (g : Given) (l : Serving) (t : ServerSlots) (i : ℕ) (p : Parsed)
    → Reach (server_of l) (accepted l t i)
    → Implements l (with_operation g (record l { slots = t }) i p)
unfolding with_operation
with_operation-Implements g l t i overread r = tt
with_operation-Implements g l t i (parsed (n, none)) r = next r (give_back (accepted l t i) i refl)
with_operation-Implements g l t i (parsed (n, some op)) r =
    create_thread-Implements g l t i _ g.thread_starts refl refl r

with_slot-Implements :
    (h : Host) (g : Given) (buffer : Bytes) (received : ℕ) (l : Serving) (r : Option ℕ)
    → (server_acquire_connection_slot l.slots).1 ≡ r
    → Implements l (
        with_slot h g buffer received
          (record l { slots = (server_acquire_connection_slot l.slots).0 })
          r)
unfolding with_slot
with_slot-Implements h g buffer received l none e = next here (reject (server_of l) refl e)
with_slot-Implements h g buffer received l (some i) e =
    with_operation-Implements g l _ i _ (next here (accept (server_of l) i refl e))

on_opcode-Implements :
    (h : Host) (g : Given) (buffer : Bytes) (received : ℕ) (l : Serving) (opcode : ℕ)
    → Implements l (on_opcode h g buffer received l opcode)
unfolding on_opcode server_try_create_operation_thread reject_opcode
on_opcode-Implements h g buffer received l opcode = elim (Bool-cases (is_request opcode)) [
  | inl e ↦ rw e (with_slot-Implements h g buffer received l _ refl)
  | inr e ↦ rw e (rejected (get_elem? opcode_strings opcode))
]
  where
    rejected : (name : Option Bytes) → Implements l (reject_opcode h l name)
    rejected none = tt
    rejected (some name) = here

on_datagram-Implements :
    (h : Host) (g : Given) (l : Serving) (a : Arrival) → Implements l (on_datagram h g l a)
unfolding on_datagram
on_datagram-Implements h g l (packet from []) = here
on_datagram-Implements h g l (packet from (b ∷ bytes)) =
    elim (Bool-cases (prints_past (b ∷ bytes))) [
      | inl e ↦ rw e tt
      | inr e ↦ rw e (on_opcode-Implements h g _ _ l _)
    ]
on_datagram-Implements h g l timed_out = here
on_datagram-Implements h g l failed = here

listener_round-Implements :
    (h : Host) (g : Given) (l : Serving) → Implements l (listener_round h g l).1
unfolding listener_round
listener_round-Implements h g l = elim (Bool-cases (poll l.requests).0) [
  | inl e ↦ rw e here
  | inr e ↦ elim (Bool-cases (poll (recvfrom (poll l.requests).1).1).0) [
    | inl f ↦ rw (e, f) here
    | inr f ↦
        let n : Net = (poll (recvfrom (poll l.requests).1).1).1 in
        rw (e, f) (on_datagram-Implements h g (record l { requests = n }) _)
  ]
]

pub ServerStep-Reach :
    {h : Host} {l m : Serving} → ServerStep h l m → Reach (server_of l) (server_of m)
ServerStep-Reach (round g l m e) = subst (Implements l) e (listener_round-Implements _ g l)
ServerStep-Reach (ending l before t after e) = rw (map-append task_of before after) (
    next here (
      task_release (server_of l) (map task_of before) (task_of t) (map task_of after)
        (ap (map task_of) e ∙ map-append task_of before (t ∷ after))))
