-- ===== src/Server/Lifecycle.antt =====
-- What the server leaves behind, and what it serves in between.
use rted_tftp.Base.{
  ℕ, ◌+◌, ◌&&◌, ◌⊎◌, ◌≡◌, Bool, true, false, List, ◌∷◌, Option, none, some, length,
}
use rted_tftp.Protocol.{server_max_connections}
use rted_tftp.Net.{Net}
use rted_tftp.Listener.Loop.{Loop}
use rted_tftp.Server.{
  Resources, ListenerSetup, ServerListenerData, ServerEnd, server_returned, server_serving,
  server_not_joined, server_overread,
}

abbrev is_some : Option ℕ → Bool
is_some none = false
is_some (some x) = true

-- All calls of `server_init_listener_data` succeed.
abbrev pub completes : ListenerSetup → Bool
completes setup =
    is_some setup.socket
    && (setup.reuse_address && (setup.reuse_port && (setup.binds && is_some setup.buffer)))

-- The open sockets once the requests socket was asked for.
abbrev pub opened : Option ℕ → List ℕ → List ℕ
opened none sockets = sockets
opened (some socket) sockets = socket ∷ sockets

-- What the listener's data holds, or what a failure leaves.
abbrev Made : ListenerSetup → Resources → Option ServerListenerData × Resources → Type 0
Made setup r (some l, q) =
    (completes setup ≡ true)
    × (q ≡ record {
      open_sockets = l.requests_socket ∷ r.open_sockets;
      regions = l.request_buffer ∷ r.regions;
    })
Made setup r (none, q) =
    (completes setup ≡ false)
    × (q ≡ record { open_sockets = opened setup.socket r.open_sockets; regions = r.regions })

-- The end of the server, by what its set-up was.
abbrev pub EndsClean : (ℕ → Bool) → ListenerSetup → Resources → ServerEnd → Type 0
EndsClean joins setup r (server_returned q) =
    ((completes setup ≡ true) × (q ≡ r))
    ⊎ ((completes setup ≡ false)
        × (q ≡ record { open_sockets = opened setup.socket r.open_sockets; regions = r.regions }))
EndsClean joins setup r (server_serving m) =
    length m.started + length m.stranded + m.slots.free_slots_count ≡ server_max_connections
EndsClean joins setup r (server_not_joined handle) = joins handle ≡ false
EndsClean joins setup r server_overread = Unit {0}
