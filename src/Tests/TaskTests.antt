-- ===== src/Tests/TaskTests.antt =====
-- An upload and a download of nine bytes in blocks of eight.
use rted_tftp.Base.{true, false, [], ◌∷◌, none, some, Option, Bytes, Bool, codes}
use rted_tftp.Packet.{little, zeros}
use rted_tftp.Net.{Address, Host, Net, packet, timed_out}
use rted_tftp.Transfer.{FileHandle}
use rted_tftp.Transfer.Blocks.{block_packet}
use rted_tftp.Operation.{operation_receive, mode_octet, OperationData}
use rted_tftp.Operation.Fill.{System}
use rted_tftp.Operation.Deletion.{FileSystem}
use rted_tftp.Client.{Memory}

abbrev server : Host
server = record { endian = little; is_server = true }

abbrev client : Address
client = record { sin_addr = 2; sin_port = 50000 }

abbrev nine : Bytes
nine = codes "nine byte"

abbrev target : FileHandle
target = record { unread = []; read_fails = false; written = []; room = 100 }

abbrev open_file : Bool → Option FileHandle
open_file true = some target
open_file false = none

abbrev system : System
system = record {
  fopen = λ path writing. open_file writing;
  malloc = λ n. some (zeros n);
  strerror_errno = codes "No such file or directory";
  timestamp = codes "2024-01-01 00:00:00.";
}

abbrev files : FileSystem
files = record { opens = λ path. false; removes = λ path. false; strerror_errno = [] }

abbrev operation : OperationData
operation = record {
  operation_id = operation_receive;
  transfer_mode = mode_octet;
  block_size = 8;
  path_len = 10;
  data_socket = 4;
  request_description = codes "READ";
  path = codes "storage/a";
}

-- The second block comes twice, and a timeout between.
abbrev socket : Net
socket = record {
  polls = [];
  sends = [];
  inbox =
      packet client (block_packet little 8 nine 1)
      ∷ packet client (block_packet little 8 nine 0)
      ∷ timed_out
      ∷ packet client (block_packet little 8 nine 1)
      ∷ [];
  peer_address = client;
  sent = [];
}

abbrev memory : Memory
memory = record { first_buffer = zeros 36; second_buffer = zeros 36; transfer_allocated = true }
