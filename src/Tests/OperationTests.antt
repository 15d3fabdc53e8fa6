-- ===== src/Tests/OperationTests.antt =====
-- Initialisation, waiting and deletion at concrete inputs.
use rted_tftp.Base.{
  ◌≡◌, refl, ◌∙◌, sym, ap, true, false, List, [], ◌∷◌, map, Option, none, some, codes, Bytes,
  length, arith,
}
use rted_tftp.Packet.{little, big, zeros}
use rted_tftp.Packet.Layout.{length-zeros}
use rted_tftp.CLibrary.{
  atoi16, skip_spaces, signed_value16, digits_value, is_strcasecmp_equal, tolower,
}
use rted_tftp.Net.{Address, Host, Net, Arrival}
use rted_tftp.Transfer.{FileHandle}
use rted_tftp.Transfer.Await.{tftp_await_acknowledgement}
use rted_tftp.Transfer.Await.Replies.{
  Reply, ack_reply, data_reply, silence, arrival_of, is_answered, await_acknowledgement-is_answered,
}
use rted_tftp.Operation.{
  operation_send, mode_octet, mode_netascii, OperationData, parse_mode, requested_block_size,
  match_mode, transfer_mode_at, supported_block_size, tftp_init_operation_data,
}
use rted_tftp.Operation.Fill.{System, tftp_fill_transfer_data}
use rted_tftp.Operation.Checks.{
  IsChecked, init_operation_data-IsChecked, IsAllocator, IsOpen, fill_transfer_data-IsOpen,
}
use rted_tftp.Client.{Memory}
use rted_tftp.Operation.Deletion.{FileSystem, server_delete_file, await_deletion}
use rted_tftp.Operation.Deletion.Handshake.{delivered, deletion_agreed}

abbrev server : Host
server = record { endian = little; is_server = true }

abbrev client : Host
client = record { endian = big; is_server = false }

abbrev peer : Address
peer = record { sin_addr = 1; sin_port = 49152 }

abbrev net : List Arrival → Net
net inbox = record { polls = []; sends = []; inbox = inbox; peer_address = peer; sent = [] }

-- The 17th bit of a block size is lost.
runs_block_size : requested_block_size (some (codes "66048")) ≡ 512
unfolding requested_block_size atoi16 skip_spaces signed_value16 digits_value
runs_block_size = refl

runs_mode : parse_mode (some (codes "NetASCII")) ≡ mode_netascii
unfolding parse_mode match_mode transfer_mode_at is_strcasecmp_equal tolower
runs_mode = refl

runs_block_size_range : supported_block_size 7 ≡ none
unfolding supported_block_size
runs_block_size_range = refl

init_operation_data-IsChecked_example : IsChecked (net []) operation_send (codes "a.txt") (
    tftp_init_operation_data server
      (net [])
      4
      operation_send
      peer
      (codes "a.txt")
      (some (codes "OCTET"))
      (some (codes "01024")))
init_operation_data-IsChecked_example =
    init_operation_data-IsChecked server (net []) 4 operation_send peer (codes "a.txt")
      (some (codes "OCTET")) (some (codes "01024"))

abbrev file : FileHandle
file = record { unread = codes "text"; read_fails = false; written = []; room = 0 }

abbrev system : System
system = record {
  fopen = λ path writing. some file;
  malloc = λ n. some (zeros n);
  strerror_errno = codes "No such file or directory";
  timestamp = codes "2024-01-01 00:00:00.";
}

abbrev operation : OperationData
operation = record {
  operation_id = operation_send;
  transfer_mode = mode_octet;
  block_size = 0;
  path_len = 14;
  data_socket = 4;
  request_description = codes "WRITE";
  path = codes "storage/a.txt";
}

system-IsAllocator : IsAllocator system.malloc
system-IsAllocator n m e = ap (λ o. length (unwrap o)) (sym e) ∙ length-zeros n
  where
    unwrap : Option Bytes → Bytes
    unwrap none = []
    unwrap (some b) = b

fill_transfer_data-IsOpen_example :
    IsOpen (net []) (tftp_fill_transfer_data system server operation true false (net []))
fill_transfer_data-IsOpen_example =
    fill_transfer_data-IsOpen system server operation true false (net []) system-IsAllocator

abbrev replies : List Reply
replies = silence ∷ data_reply 1 (codes "x") ∷ ack_reply 1 ∷ ack_reply 0 ∷ []

runs_is_answered : is_answered 5 0 replies ≡ true
unfolding is_answered
runs_is_answered = refl

await_acknowledgement-is_answered_example :
    (tftp_await_acknowledgement client 0 (zeros 132) (net (map (arrival_of little peer) replies))).0
    ≡ is_answered 5 0 replies
await_acknowledgement-is_answered_example =
    await_acknowledgement-is_answered client 0 little peer replies (zeros 132)
      (net (map (arrival_of little peer) replies)) (omega arith) refl

abbrev files : FileSystem
files = record {
  opens = λ path. true;
  removes = λ path. true;
  strerror_errno = codes "Permission denied";
}

abbrev client_net : Net
client_net = net (delivered peer (server_delete_file server files operation (net [])).1.sent)

deletion_agreed_example :
    (await_deletion client (zeros 132) (zeros 132) client_net).0
    ≡ (server_delete_file server files operation (net [])).0
deletion_agreed_example =
    deletion_agreed server client files operation peer (net []) client_net (zeros 132) (zeros 132)
      record { no_signal = refl; no_loss = refl } refl (omega arith) (omega arith) refl

abbrev memory : Memory
memory = record { first_buffer = zeros 132; second_buffer = zeros 132; transfer_allocated = true }
