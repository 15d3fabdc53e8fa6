-- ===== src/Socket/Ports.antt =====
-- The ports that the two sides of an operation are bound to.
use rted_tftp.Base.{
  ℕ, ◌≤◌, ◌≡◌, ◌≢◌, refl, sym, ap, ◌∙◌, Bool, true, false, List, [], ◌∷◌, Option, none, some, Bytes,
  if◌then◌else◌, ◌==◌, arith, Bool-cases, subst, inl, inr,
}
use rted_tftp.Packet.{Endian, little, big, htons, error_packet}
use rted_tftp.Net.{Host, Net, sendto, tftp_send_error}
use rted_tftp.Socket.{
  server_data_port_min, server_data_port_max, client_data_port_min, client_data_port_max,
  random_range, SocketSetup, bound, exits, random_port, bind_loop, with_socket,
  tftp_init_bound_data_socket,
}

-- The range of the data ports of a host.
abbrev pub IsDataPort : Host → ℕ → Type 0
IsDataPort h port =
    ((if h.is_server then server_data_port_min else client_data_port_min) ≤ port)
    × (port ≤ (if h.is_server then server_data_port_max else client_data_port_max))

random_port-IsDataPort : (h : Host) (r : ℕ) → IsDataPort h (random_port h r)
unfolding random_port random_range
random_port-IsDataPort h r = elim (Bool-cases h.is_server) [
  | inl e ↦ rw e (omega arith, omega arith)
  | inr e ↦ rw e (omega arith, omega arith)
]

-- What the loop leaves the socket bound to.
bind_loop-IsDataPort :
    (h : Host) (s : ℕ) (attempts : List (ℕ × Bool)) (socket port field : ℕ)
    → bind_loop h s attempts ≡ bound socket port field
    → IsDataPort h port × (field ≡ htons h.endian port)
unfolding bind_loop
bind_loop-IsDataPort h s [] socket port field e = absurd cc
bind_loop-IsDataPort h s ((r, false) ∷ attempts) socket port field e =
    bind_loop-IsDataPort h s attempts socket port field e
bind_loop-IsDataPort h s ((r, true) ∷ attempts) socket port field e =
    let port_is : random_port h r ≡ port = cc in
    let field_is : htons h.endian (random_port h r) ≡ field = cc in
    (
      subst (IsDataPort h) port_is (random_port-IsDataPort h r),
      sym field_is ∙ ap (htons h.endian) port_is,
    )

made-IsDataPort :
    (h : Host) (setup : SocketSetup) (made : Option ℕ) (socket port field : ℕ)
    → with_socket h setup made ≡ bound socket port field
    → IsDataPort h port × (field ≡ htons h.endian port)
unfolding with_socket
made-IsDataPort h setup none socket port field e = absurd cc
made-IsDataPort h setup (some s) socket port field e =
    options setup.reuse_address setup.reuse_port setup.timeout e
  where
    options :
        (a p t : Bool)
        → (if a
            then (if p then (if t then bind_loop h s setup.attempts else exits) else exits)
            else exits)
          ≡ bound socket port field
        → IsDataPort h port × (field ≡ htons h.endian port)
    options true true true f = bind_loop-IsDataPort h s setup.attempts socket port field f
    options false p t f = absurd cc
    options true false t f = absurd cc
    options true true false f = absurd cc

htons-requests_port :
    (e : Endian) (port : ℕ) → 49152 ≤ port → port ≤ 59999 → htons e port ≢ htons e 69
unfolding htons
htons-requests_port little port lo hi e = absurd (omega arith)
htons-requests_port big port lo hi e = absurd (omega arith)

in_both_ranges : (h : Host) (port : ℕ) → IsDataPort h port → (49152 ≤ port) × (port ≤ 59999)
in_both_ranges h port d = elim (Bool-cases h.is_server) [
  | inl e ↦ let r : (49152 ≤ port) × (port ≤ 49999) = rw e at d in (r.0, omega (arith, r.1))
  | inr e ↦ let r : (50000 ≤ port) × (port ≤ 59999) = rw e at d in (omega (arith, r.0), r.1)
]

-- A peer whose data socket is bound has a port of its role's range, from 49152 to 49999 for the server
-- and from 50000 to 59999 for a client, in network order in its address; and an error message to it, from
-- a host of any byte order on which its port field stands as it came, is never held back: the guard of
-- `tftp_send_error` concerns the requests port alone.
pub bound_port-is_answered :
    (peer h : Host) (setup : SocketSetup) (socket port field code : ℕ) (message : Bytes)
    (item : Option Bytes) (n : Net)
    → tftp_init_bound_data_socket peer setup ≡ bound socket port field
    → n.peer_address.sin_port ≡ htons h.endian port
    → IsDataPort peer port
      × (field ≡ htons peer.endian port)
      × (tftp_send_error h code message item n
          ≡ (sendto n (error_packet h.endian code message item)).1)
unfolding tftp_init_bound_data_socket tftp_send_error
bound_port-is_answered peer h setup socket port field code message item n made at_port =
    let (range, network) = made-IsDataPort peer setup setup.socket socket port field made in
    let (lo, hi) = in_both_ranges peer port range in
    let other = htons-requests_port h.endian port lo hi in
    let passes : (n.peer_address.sin_port == htons h.endian 69) ≡ false = ground arith in
    (range, network, rw passes refl)
