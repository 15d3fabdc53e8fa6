-- ===== src/Server.antt =====
-- server.c, `server_start`: what the server sets up, its listener loop, and what it takes down again.
-- Sockets and allocated regions are known by numbers; those of the operations belong to their threads.
-- What `pthread_join` does with a handle is a parameter: at the end it is called with the handles of
-- all five slots, also of those that never had a thread, where it is 0, and of threads that have
-- detached themselves, for which POSIX promises nothing.
pub mod Lifecycle
use rted_tftp.Base.{ℕ, Bool, true, false, List, [], ◌∷◌, Option, none, some, if◌then◌else◌, ◌==◌}
use rted_tftp.Packet.{htons}
use rted_tftp.Net.{Address, Host, Net}
use rted_tftp.Slots.{ServerSlots, server_init_slots_data}
use rted_tftp.Listener.{Serving}
use rted_tftp.Listener.Loop.{
  Event, Loop, returned, still_serving, loop_overread, server_listener_loop,
}

pub record Resources : Type 0 where
  pub open_sockets : List ℕ
  pub regions : List ℕ

-- The first one of that number goes.
unfoldable pub without : ℕ → List ℕ → List ℕ
without x [] = []
without x (y ∷ ys) = let rest = without x ys in if x == y then ys else y ∷ rest

abbrev pub close : ℕ → Resources → Resources
close socket r = record r { open_sockets = without socket r.open_sockets }

abbrev pub free : ℕ → Resources → Resources
free region r = record r { regions = without region r.regions }

-- What the operating system does for the listener: `socket`, two calls of `setsockopt`, `bind` and
-- `malloc`.
pub record ListenerSetup : Type 0 where
  pub socket : Option ℕ
  pub reuse_address : Bool
  pub reuse_port : Bool
  pub binds : Bool
  pub buffer : Option ℕ

-- ServerListenerData_t, without what the loop keeps in it.
pub record ServerListenerData : Type 0 where
  pub requests_socket : ℕ
  pub requests_address : Address
  pub request_buffer : ℕ

unfoldable pub with_buffer : Host → ℕ → Resources → Option ℕ → Option ServerListenerData × Resources
with_buffer h socket r none = (none, r)
with_buffer h socket r (some buffer) = (
  some record {
    requests_socket = socket;
    requests_address = record { sin_addr = 0; sin_port = htons h.endian 69 };
    request_buffer = buffer;
  },
  record r { regions = buffer ∷ r.regions },
)

unfoldable pub with_requests_socket :
    Host → ListenerSetup → Resources → Option ℕ → Option ServerListenerData × Resources
with_requests_socket h setup r none = (none, r)
with_requests_socket h setup r (some socket) =
    let opened = record r { open_sockets = socket ∷ r.open_sockets } in
    let buffered = with_buffer h socket opened setup.buffer in
    if setup.reuse_address
    then (if setup.reuse_port
        then (if setup.binds then buffered else (none, opened))
        else (none, opened))
    else (none, opened)

-- `server_init_listener_data`; `none` is the return value false.
unfoldable pub server_init_listener_data :
    Host → ListenerSetup → Resources → Option ServerListenerData × Resources
server_init_listener_data h setup r = with_requests_socket h setup r setup.socket

unfoldable pub server_deinit_listener_data : ServerListenerData → Resources → Resources
server_deinit_listener_data listener r =
    free listener.request_buffer (close listener.requests_socket r)

-- ServerData_t at its address.
pub record ServerData : Type 0 where
  pub address : ℕ
  pub listener : ServerListenerData
  pub slots : ServerSlots

-- The initialised data, or a null pointer, with the region freed before.
unfoldable pub with_listener :
    ℕ → Option ServerListenerData × Resources → Option ServerData × Resources
with_listener address (none, r) = (none, free address r)
with_listener address (some listener, r) =
    (some record { address = address; listener = listener; slots = server_init_slots_data }, r)

-- `server_init_data`, with the address that `malloc` gives; the code does not expect a null pointer.
unfoldable pub server_init_data :
    Host → ListenerSetup → ℕ → Resources → Option ServerData × Resources
server_init_data h setup address r =
    with_listener address
      (server_init_listener_data h setup (record r { regions = address ∷ r.regions }))

-- What `mkdir` does: the directory is made, is there already, or neither.
pub data Mkdir : Type 0 where
  made exists mkdir_fails : Mkdir

unfoldable pub server_init_storage_location : Mkdir → Bool
server_init_storage_location made = true
server_init_storage_location exists = true
server_init_storage_location mkdir_fails = false

-- The end of `server_start`, or where it is when no more happens: in its loop, past a buffer, or in a
-- `pthread_join` that does not return, with the handle that it was called with.
pub data ServerEnd : Type 0 where
  server_returned : Resources → ServerEnd
  server_not_joined : ℕ → ServerEnd
  server_serving : Serving → ServerEnd
  server_overread : ServerEnd

-- The deallocations at the end.
unfoldable pub take_down : ServerData → Resources → ServerEnd
take_down data_ptr r =
    server_returned (free data_ptr.address (server_deinit_listener_data data_ptr.listener r))

-- `pthread_join` on the handles, one after the other; whether it returns for a handle is `joins`.
unfoldable pub join_threads : (ℕ → Bool) → List ℕ → ServerEnd → ServerEnd
join_threads joins [] ending = ending
join_threads joins (handle ∷ handles) ending =
    let rest = join_threads joins handles ending in
    if joins handle then rest else server_not_joined handle

unfoldable pub after_loop : (ℕ → Bool) → ServerData → Resources → Loop → ServerEnd
after_loop joins data_ptr r (returned m) =
    join_threads joins m.slots.slot_thread_handles (take_down data_ptr r)
after_loop joins data_ptr r (still_serving m) = server_serving m
after_loop joins data_ptr r loop_overread = server_overread

unfoldable pub with_data :
    (ℕ → Bool) → Host → Mkdir → Net → List Event → Option ServerData × Resources → ServerEnd
with_data joins h storage requests events (none, r) = server_returned r
with_data joins h storage requests events (some data_ptr, r) =
    let serving : Serving = record {
      requests = requests;
      slots = data_ptr.slots;
      started = [];
      stranded = [];
      refused = [];
    } in
    let looped = after_loop joins data_ptr r (server_listener_loop h events serving) in
    if server_init_storage_location storage then looped else take_down data_ptr r

-- `server_start`
unfoldable pub server_start :
    (ℕ → Bool) → Host → ListenerSetup → ℕ → Mkdir → Net → List Event → Resources → ServerEnd
server_start joins h setup address storage requests events r =
    with_data joins h storage requests events (server_init_data h setup address r)
