-- ===== src/Listener/Loop.antt =====
-- server.c, `server_listener_loop`, with the ends of the operation threads in between.
use rted_tftp.Base.{
  ◌||◌, inl, inr, Bool-cases, subst, ℕ, zero, suc, ◌≡◌, refl, ap, ap₂, Bool, true, false, List, [],
  ◌∷◌, ◌++◌, Option, none, some,
}
use rted_tftp.Net.{Host, poll, recvfrom}
use rted_tftp.Slots.{server_release_connection_slot}
use rted_tftp.Listener.{
  Started, Serving, Given, Handled, goes_on, out_of_bounds, listener_round, round, ending, Serves,
  then_step,
}

-- What happens next: a round of the loop, or the end of the running thread at a position.
pub data Event : Type 0 where
  turn : Given → Event
  thread_end : ℕ → Event

-- The loop has returned, is still on when no more happens, or has read past a buffer or a table.
pub data Loop : Type 0 where
  returned : Serving → Loop
  still_serving : Serving → Loop
  loop_overread : Loop

-- The threads before a position, the thread there, and those behind.
unfoldable pub split_at : ℕ → List Started → Option (List Started × Started × List Started)
split_at i [] = none
split_at zero (t ∷ ts) = some ([], t, ts)
split_at (suc i) (t ∷ ts) = elim (split_at i ts) [ none ↦ none | some r ↦ some (t ∷ r.0, r.1, r.2) ]

-- `server_task_release` of the thread at a position, if there is one.
unfoldable pub end_thread : Serving → Option (List Started × Started × List Started) → Serving
end_thread l none = l
end_thread l (some (before, t, after)) = record l {
  slots = server_release_connection_slot l.slots t.task_slot_idx;
  started = before ++ after;
}

unfoldable pub server_listener_loop : Host → List Event → Serving → Loop
server_listener_loop h [] l = still_serving l
server_listener_loop h (thread_end i ∷ events) l =
    server_listener_loop h events (end_thread l (split_at i l.started))
server_listener_loop h (turn g ∷ events) l =
    let (goes_round, handled) = listener_round h g l in
    elim handled [
      | out_of_bounds ↦ loop_overread
      | goes_on m ↦ elim goes_round [ true ↦ server_listener_loop h events m | false ↦ returned m ]
    ]

abbrev IsSplit : List Started → Option (List Started × Started × List Started) → Type 0
IsSplit ts none = Unit {0}
IsSplit ts (some (before, t, after)) = ts ≡ before ++ (t ∷ after)

split_at-IsSplit : (i : ℕ) (ts : List Started) → IsSplit ts (split_at i ts)
unfolding split_at
split_at-IsSplit i [] = tt
split_at-IsSplit zero (t ∷ ts) = refl
split_at-IsSplit (suc i) (t ∷ ts) = behind (split_at i ts) (split_at-IsSplit i ts)
  where
    behind :
        (r : Option (List Started × Started × List Started))
        → IsSplit ts r
        → IsSplit (t ∷ ts) (elim r [ none ↦ none | some q ↦ some (t ∷ q.0, q.1, q.2) ])
    behind none e = tt
    behind (some (before, u, after)) e = ap (◌∷◌ t) e

-- The flag is set when the loop tests it, or after the `recvfrom` of the round.
abbrev pub sees_signal : Serving → Bool
sees_signal l =
    let (before_receipt, n) = poll l.requests in before_receipt || (poll (recvfrom n).1).0

-- The events lead from one state to another, and no round among them sees the flag.
abbrev pub Runs : Host → List Event → Serving → Serving → Type 0
Runs h [] l m = l ≡ m
Runs h (thread_end i ∷ events) l m = Runs h events (end_thread l (split_at i l.started)) m
Runs h (turn g ∷ events) l m =
    (k : Serving) × (sees_signal l ≡ false)
    × ((listener_round h g l).1 ≡ goes_on k)
    × Runs h events k m

-- How the loop ends: at the first round that sees the flag, with the slots and threads as they were; at
-- the first round that goes out of bounds; or not at all, when the events end first.
abbrev pub LoopServes : Host → List Event → Serving → Loop → Type 0
LoopServes h events l (returned m) =
    (before : List Event) × (g : Given) × (after : List Event) × (k : Serving) × (events
      ≡ before ++ (turn g ∷ after))
    × Runs h before l k
    × (sees_signal k ≡ true)
    × (m.slots ≡ k.slots)
    × (m.started ≡ k.started)
LoopServes h events l (still_serving m) = Runs h events l m
LoopServes h events l loop_overread =
    (before : List Event) × (g : Given) × (after : List Event) × (k : Serving) × (events
      ≡ before ++ (turn g ∷ after))
    × Runs h before l k
    × (sees_signal k ≡ false)
    × ((listener_round h g k).1 ≡ out_of_bounds)

-- A round that sees the flag is the last one, and handles nothing; any other one goes on.
abbrev Tests : Serving → Bool × Handled → Type 0
Tests l (true, r) = sees_signal l ≡ false
Tests l (false, goes_on m) = (sees_signal l ≡ true) × (m.slots ≡ l.slots) × (m.started ≡ l.started)
Tests l (false, out_of_bounds) = ⊥

listener_round-Tests : (h : Host) (g : Given) (l : Serving) → Tests l (listener_round h g l)
unfolding listener_round
listener_round-Tests h g l = elim (Bool-cases (poll l.requests).0) [
  | inl e ↦ rw e (ap (λ b. b || (poll (recvfrom (poll l.requests).1).1).0) e, refl, refl)
  | inr e ↦ elim (Bool-cases (poll (recvfrom (poll l.requests).1).1).0) [
    | inl f ↦ rw (e, f) (ap₂ (λ a b. a || b) e f, refl, refl)
    | inr f ↦ rw (e, f) (ap₂ (λ a b. a || b) e f)
  ]
]

-- One more event before a loop.
ended-LoopServes :
    (h : Host) (i : ℕ) (events : List Event) (l : Serving) (o : Loop)
    → LoopServes h events (end_thread l (split_at i l.started)) o
    → LoopServes h (thread_end i ∷ events) l o
ended-LoopServes h i events l (returned m) (before, g, after, k, e, r, q, slots, started) =
    (thread_end i ∷ before, g, after, k, ap (◌∷◌ (thread_end i)) e, r, q, slots, started)
ended-LoopServes h i events l (still_serving m) r = r
ended-LoopServes h i events l loop_overread (before, g, after, k, e, r, q, out) =
    (thread_end i ∷ before, g, after, k, ap (◌∷◌ (thread_end i)) e, r, q, out)

turned-LoopServes :
    (h : Host) (g : Given) (events : List Event) (l m : Serving) (o : Loop)
    → sees_signal l ≡ false
    → (listener_round h g l).1 ≡ goes_on m
    → LoopServes h events m o
    → LoopServes h (turn g ∷ events) l o
turned-LoopServes h g events l m (returned n) q e
      (before, g', after, k, at, r, q', slots, started) =
    (turn g ∷ before, g', after, k, ap (◌∷◌ (turn g)) at, (m, q, e, r), q', slots, started)
turned-LoopServes h g events l m (still_serving n) q e r = (m, q, e, r)
turned-LoopServes h g events l m loop_overread q e (before, g', after, k, at, r, q', out) =
    (turn g ∷ before, g', after, k, ap (◌∷◌ (turn g)) at, (m, q, e, r), q', out)

round-LoopServes :
    (h : Host) (g : Given) (events : List Event) (l : Serving) (r : Bool × Handled)
    → listener_round h g l ≡ r
    → Tests l r
    → ((m : Serving) → LoopServes h events m (server_listener_loop h events m))
    → LoopServes h (turn g ∷ events) l (elim r.1 [
      | out_of_bounds ↦ loop_overread
      | goes_on m ↦ elim r.0 [ true ↦ server_listener_loop h events m | false ↦ returned m ]
    ])
round-LoopServes h g events l (true, out_of_bounds) e t rec =
    ([], g, events, l, refl, refl, t, ap (λ p. p.1) e)
round-LoopServes h g events l (false, out_of_bounds) e t rec = absurd t
round-LoopServes h g events l (true, goes_on m) e t rec =
    turned-LoopServes h g events l m _ t (ap (λ p. p.1) e) (rec m)
round-LoopServes h g events l (false, goes_on m) e t rec =
    ([], g, events, l, refl, refl, t.0, t.1, t.2)

-- However rounds and ends of threads follow one another, the loop returns just at the first round that
-- sees the termination flag, before or after its `recvfrom`, and that round leaves slots and threads
-- alone; it goes out of bounds just at a round that sees no flag and does so; and otherwise it goes on
-- through all events, one round after the other.
pub server_listener_loop-LoopServes :
    (h : Host) (events : List Event) (l : Serving)
    → LoopServes h events l (server_listener_loop h events l)
unfolding server_listener_loop
server_listener_loop-LoopServes h [] l = refl
server_listener_loop-LoopServes h (thread_end i ∷ events) l =
    ended-LoopServes h i events l _
      (server_listener_loop-LoopServes h events (end_thread l (split_at i l.started)))
server_listener_loop-LoopServes h (turn g ∷ events) l =
    round-LoopServes h g events l (listener_round h g l) refl (listener_round-Tests h g l)
      λ m. server_listener_loop-LoopServes h events m

ended-Serves :
    {h : Host} {start : Serving} (l : Serving) (r : Option (List Started × Started × List Started))
    → IsSplit l.started r
    → Serves h start l
    → Serves h start (end_thread l r)
unfolding end_thread
ended-Serves l none e s = s
ended-Serves l (some (before, t, after)) e s = then_step s (ending l before t after e)

-- Such events are steps of the server.
pub Runs-Serves :
    {h : Host} {start : Serving} (events : List Event) (l m : Serving)
    → Serves h start l
    → Runs h events l m
    → Serves h start m
Runs-Serves {h = h} {start = start} [] l m s r = subst (Serves h start) r s
Runs-Serves (thread_end i ∷ events) l m s r =
    Runs-Serves events _ m (ended-Serves l (split_at i l.started) (split_at-IsSplit i l.started) s)
      r
Runs-Serves (turn g ∷ events) l m s (k, q, e, r) =
    Runs-Serves events k m (then_step s (round g l k e)) r
