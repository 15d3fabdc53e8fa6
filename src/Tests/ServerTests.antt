-- ===== src/Tests/ServerTests.antt =====
-- Sockets and the server's life at concrete inputs.
use rted_tftp.Base.{◌≡◌, refl, true, false, [], ◌∷◌, none, some, codes}
use rted_tftp.Packet.{little, big, htons, error_packet}
use rted_tftp.Net.{Address, Host, Net, sendto, tftp_send_error}
use rted_tftp.Slots.{server_init_slots_data}
use rted_tftp.Listener.{Serving, Given}
use rted_tftp.Listener.Loop.{
  turn, thread_end, server_listener_loop, LoopServes, server_listener_loop-LoopServes,
}
use rted_tftp.Socket.{
  SocketSetup, bound, random_range, random_port, bind_loop, with_socket,
  tftp_init_bound_data_socket,
}
use rted_tftp.Socket.Ports.{IsDataPort, bound_port-is_answered}
use rted_tftp.Server.{Resources, ListenerSetup}

abbrev server : Host
server = record { endian = little; is_server = true }

abbrev client : Host
client = record { endian = big; is_server = false }

abbrev setup : SocketSetup
setup = record {
  socket = some 3;
  reuse_address = true;
  reuse_port = true;
  timeout = true;
  attempts = (7, false) ∷ (1000, true) ∷ [];
}

runs_bound : tftp_init_bound_data_socket client setup ≡ bound 3 51000 51000
unfolding tftp_init_bound_data_socket with_socket bind_loop random_port random_range htons
runs_bound = refl

abbrev peer : Address
peer = record { sin_addr = 2; sin_port = 14535 }

abbrev socket : Net
socket = record { polls = []; sends = []; inbox = []; peer_address = peer; sent = [] }

runs_htons : peer.sin_port ≡ htons little 51000
unfolding htons
runs_htons = refl

bound_port-is_answered_example :
    IsDataPort client 51000
    × (51000 ≡ htons big 51000)
    × (tftp_send_error server 0 (codes "no") none socket
        ≡ (sendto socket (error_packet little 0 (codes "no") none)).1)
bound_port-is_answered_example =
    bound_port-is_answered client server setup 3 51000 51000 0 (codes "no") none socket runs_bound
      runs_htons

-- The flag is set while the second `recvfrom` waits.
abbrev requests : Net
requests = record socket { polls = false ∷ false ∷ false ∷ true ∷ [] }

abbrev serving : Serving
serving = record {
  requests = requests;
  slots = server_init_slots_data;
  started = [];
  stranded = [];
  refused = [];
}

abbrev given : Given
given = record {
  fresh = socket;
  data_socket = 4;
  op_data_ptr = 1000;
  thread_starts = true;
  thread_handle = 77;
}

server_listener_loop-LoopServes_example :
    LoopServes server
      (turn given ∷ thread_end 0 ∷ turn given ∷ [])
      serving
      (server_listener_loop server (turn given ∷ thread_end 0 ∷ turn given ∷ []) serving)
server_listener_loop-LoopServes_example =
    server_listener_loop-LoopServes server (turn given ∷ thread_end 0 ∷ turn given ∷ []) serving

-- `bind` fails.
abbrev port_taken : ListenerSetup
port_taken = record {
  socket = some 3;
  reuse_address = true;
  reuse_port = true;
  binds = false;
  buffer = some 20;
}

abbrev held : Resources
held = record { open_sockets = []; regions = 5 ∷ [] }
