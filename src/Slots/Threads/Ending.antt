-- ===== src/Slots/Threads/Ending.antt =====
-- What the listener and the threads can still do from every reachable state.
use rted_tftp.Base.{ℕ, ◌+◌, ◌≡◌, refl, ap, ◌∙◌, List, [], ◌∷◌, Option, none, some, length, arith}
use rted_tftp.Protocol.{server_max_connections}
use rted_tftp.Slots.Count.{free_count}
use rted_tftp.Slots.Threads.{Task, Server, initial, give_back, task_release, Reach, here, next}
use rted_tftp.Slots.Threads.Ownership.{held_count}
use rted_tftp.Slots.Threads.Guarantees.{Reach-owners, Reach-capacity}
use rted_tftp.Slots.{server_release_connection_slot}

pub Reach-trans : {s t u : Server} → Reach s t → Reach t u → Reach s u
Reach-trans r here = r
Reach-trans r (next q st) = next (Reach-trans r q) st

-- All threads can end, one after the other.
drained :
    (ts : List Task) (s : Server)
    → s.tasks ≡ ts
    → (u : Server) × Reach s u
      × (u.tasks ≡ [])
      × (u.acquired_slot ≡ s.acquired_slot)
      × (u.stranded ≡ s.stranded)
drained [] s e = (s, here, e, refl, refl)
drained (t ∷ ts) s e =
    let s' : Server = record s {
      slots = server_release_connection_slot s.slots t.task_slot_idx;
      tasks = ts;
    } in
    let (u, r, empty, held, lost) = drained ts s' refl in
    (u, Reach-trans (next here (task_release s [] t ts e)) r, empty, held, lost)

-- The listener can put down what it holds.
put_down :
    (o : Option ℕ) (s : Server)
    → s.acquired_slot ≡ o
    → (u : Server) × Reach s u × (u.acquired_slot ≡ none) × (u.stranded ≡ s.stranded)
put_down none s e = (s, here, e, refl)
put_down (some i) s e = (
  record s { slots = server_release_connection_slot s.slots i; acquired_slot = none },
  next here (give_back s i e),
  refl,
  refl,
)

-- From every reachable state, some further run of the listener and the threads ends with no thread, no
-- request in the listener's hand, and all slots free and unmarked but those whose threads could not be
-- created by then: no slot is lost but to a failing `pthread_create`.
pub Reach-recovers :
    {s : Server}
    → Reach initial s
    → (u : Server) × Reach s u
      × (u.tasks ≡ [])
      × (u.acquired_slot ≡ none)
      × (u.slots.free_slots_count + length s.stranded ≡ server_max_connections)
      × (free_count u.slots.slot_occupied_flags + length s.stranded ≡ server_max_connections)
Reach-recovers {s} r =
    let (t, to_t, idle, kept) = put_down s.acquired_slot s refl in
    let (u, to_u, empty, held, lost) = drained t.tasks t refl in
    let q = Reach-trans to_t to_u in
    let whole = Reach-trans r q in
    let none_held : u.acquired_slot ≡ none = held ∙ idle in
    let all_free : u.slots.free_slots_count + length s.stranded ≡ server_max_connections = omega (
      arith,
      (Reach-capacity whole).0,
      ap held_count none_held,
      ap (λ ts. length ts) empty,
      ap (λ ts. length ts) (lost ∙ kept),
    ) in
    (u, q, empty, none_held, all_free, omega (arith, all_free, (Reach-owners whole 0).2))
