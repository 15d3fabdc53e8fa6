-- ===== src/Listener/Refinement.antt =====
-- The listener and its threads implement the steps of Slots/Threads.
pub mod Rounds
use rted_tftp.Base.{
  All, ap₂, ℕ, ◌+◌, ◌≡◌, refl, ap, ◌∙◌, List, [], ◌∷◌, ◌++◌, none, some, length, get_elem?, arith,
  subst, map, map-append, ◌≢◌, ◌==◌,
}
use rted_tftp.Protocol.{server_max_connections}
use rted_tftp.Net.{Host}
use rted_tftp.Slots.{server_init_slots_data}
use rted_tftp.Slots.Threads.{Reach, here, initial}
use rted_tftp.Slots.Threads.Ownership.{tasks_at, one_if, tasks_at-middle}
use rted_tftp.Slots.Threads.Ending.{Reach-trans}
use rted_tftp.Slots.Threads.Guarantees.{Reach-owners, Reach-assigned, Reach-capacity}
use rted_tftp.Listener.{Started, Serving, Serves, at_start, then_step}
pub use rted_tftp.Listener.Refinement.Rounds.{task_of, server_of}
use rted_tftp.Listener.Refinement.Rounds.{ServerStep-Reach}

-- However the rounds of the listener and the ends of the operation threads follow one another, and
-- whatever datagrams, flags, addresses and outcomes of `pthread_create` the rounds meet, the server's
-- slots and threads are those of a run of the abstract server, in which each slot has one owner.
pub Serves-Reach : {h : Host} {l m : Serving} → Serves h l m → Reach (server_of l) (server_of m)
Serves-Reach at_start = here
Serves-Reach (then_step r st) = Reach-trans (Serves-Reach r) (ServerStep-Reach st)

length-running : (ts : List Started) → length (map task_of ts) ≡ length ts
length-running [] = refl
length-running (t ∷ ts) = omega (arith, length-running ts)

-- The state in which the server starts.
pub record IsStart (l : Serving) : Type 0 where
  pub slots_are : l.slots ≡ server_init_slots_data
  pub none_runs : l.started ≡ []
  pub none_stranded : l.stranded ≡ []

server_of-start : (l : Serving) → IsStart l → server_of l ≡ initial
server_of-start l b =
    ap
      (λ slots. record {
        slots = slots;
        acquired_slot = none;
        tasks = map task_of l.started;
        stranded = map task_of l.stranded;
      })
      b.slots_are
    ∙ ap₂
        (λ ts us. record {
          slots = server_init_slots_data;
          acquired_slot = none;
          tasks = map task_of ts;
          stranded = map task_of us;
        })
        b.none_runs b.none_stranded

from_initial : {h : Host} {l m : Serving} → IsStart l → Serves h l m → Reach initial (server_of m)
from_initial {l = l} {m = m} b r =
    subst (λ s. Reach s (server_of m)) (server_of-start l b) (Serves-Reach r)

-- From the state in which the server starts, in every such run: the running threads, those that
-- `pthread_create` could not start, and the free slots are five together between the rounds.
pub Serves-capacity :
    {h : Host} {l m : Serving}
    → IsStart l
    → Serves h l m
    → length m.started + length m.stranded + m.slots.free_slots_count ≡ server_max_connections
Serves-capacity {l = l} {m = m} b r =
    let v = (Reach-capacity (from_initial b r)).0 in
    omega (arith, v, length-running m.started, length-running m.stranded)

-- What one thread of those that run has to itself: its slot is no other thread's, and holds its
-- operation's data.
abbrev pub HasSlot : Serving → Started → List Started → Type 0
HasSlot m t others =
    All (λ u. t.task_slot_idx ≢ u.task_slot_idx) others
    × (get_elem? m.slots.slot_op_data t.task_slot_idx ≡ some (some t.op_data_ptr))

no_others :
    (j : ℕ) (ts : List Started)
    → tasks_at j (map task_of ts) ≡ 0
    → All (λ u. j ≢ u.task_slot_idx) ts
no_others j [] z = tt
no_others j (t ∷ ts) z = (λ e. ground (arith, z, e), no_others j ts (omega (arith, z)))

-- In every such run, each running thread has a slot of its own, which no other running thread has, and
-- which holds its operation's data.
pub Serves-exclusive :
    {h : Host} {l m : Serving} (before : List Started) (t : Started) (after : List Started)
    → IsStart l
    → Serves h l m
    → m.started ≡ before ++ (t ∷ after)
    → HasSlot m t (before ++ after)
Serves-exclusive {m = m} before t after b r e =
    let j : ℕ = t.task_slot_idx in
    let tasks_are : map task_of m.started ≡ map task_of before ++ (task_of t ∷ map task_of after) =
      ap (map task_of) e ∙ map-append task_of before (t ∷ after) in
    let q = from_initial b r in
    let self : one_if (j == j) ≡ 1 = ground arith in
    let alone : tasks_at j (map task_of before ++ map task_of after) ≡ 0 = omega (
      arith,
      (Reach-owners q j).1,
      ap (tasks_at j) tasks_are,
      tasks_at-middle j (map task_of before) (task_of t) (map task_of after),
      self,
    ) in
    (
      no_others j (before ++ after) (ap (tasks_at j) (map-append task_of before after) ∙ alone),
      Reach-assigned (map task_of before) (task_of t) (map task_of after) q tasks_are,
    )
