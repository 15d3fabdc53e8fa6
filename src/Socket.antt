-- ===== src/Socket.antt =====
-- common.c, `random_range`; tftp_common.c, `tftp_init_bound_data_socket`; networking_common.h, the
-- ranges of the data ports. What the operating system does is a script: the socket, the three options,
-- and for each round of the loop the number that `rand` gives and whether `bind` succeeds.
pub mod Ports
use rted_tftp.Base.{
  ℕ, ◌+◌, ◌-◌, ◌%◌, Bool, true, false, List, [], ◌∷◌, Option, none, some, if◌then◌else◌,
}
use rted_tftp.Packet.{htons}
use rted_tftp.Net.{Host}

abbrev pub server_data_port_min : ℕ
server_data_port_min = 49152

abbrev pub server_data_port_max : ℕ
server_data_port_max = 49999

abbrev pub client_data_port_min : ℕ
client_data_port_min = 50000

abbrev pub client_data_port_max : ℕ
client_data_port_max = 59999

-- `random_number` is what `rand` gives, a number that is not negative; every caller has min ≤ max.
unfoldable pub random_range : ℕ → ℕ → ℕ → ℕ
random_range random_number min max = random_number % (max - min + 1) + min

pub record SocketSetup : Type 0 where
  pub socket : Option ℕ
  pub reuse_address : Bool
  pub reuse_port : Bool
  pub timeout : Bool
  pub attempts : List (ℕ × Bool)

-- The socket with the port it is bound to and the port field of its address; an exit of the program; or
-- a loop that is still on when the attempts have run out.
pub data DataSocket : Type 0 where
  bound : ℕ → ℕ → ℕ → DataSocket
  exits : DataSocket
  binding : DataSocket

-- `rx_port`, of 16 bits
unfoldable pub random_port : Host → ℕ → ℕ
random_port h random_number =
    random_range random_number (if h.is_server then server_data_port_min else client_data_port_min)
      (if h.is_server then server_data_port_max else client_data_port_max)
    % 65536

-- The loop until `bind` succeeds.
unfoldable pub bind_loop : Host → ℕ → List (ℕ × Bool) → DataSocket
bind_loop h socket [] = binding
bind_loop h socket ((random_number, false) ∷ attempts) = bind_loop h socket attempts
bind_loop h socket ((random_number, true) ∷ attempts) =
    bound socket (random_port h random_number) (htons h.endian (random_port h random_number))

unfoldable pub with_socket : Host → SocketSetup → Option ℕ → DataSocket
with_socket h setup none = exits
with_socket h setup (some socket) =
    let bind_result = bind_loop h socket setup.attempts in
    if setup.reuse_address
    then (if setup.reuse_port then (if setup.timeout then bind_result else exits) else exits)
    else exits

unfoldable pub tftp_init_bound_data_socket : Host → SocketSetup → DataSocket
tftp_init_bound_data_socket h setup = with_socket h setup setup.socket
