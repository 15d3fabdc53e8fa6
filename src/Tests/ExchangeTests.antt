-- ===== src/Tests/ExchangeTests.antt =====
-- A download and an upload of nine bytes in blocks of eight, between hosts of different byte orders.
use rted_tftp.Base.{
  refl, inr, true, false, [], none, some, Option, Bytes, Bool, codes, arith, replicate,
}
use rted_tftp.Packet.{zeros}
use rted_tftp.Packet.Layout.{length-zeros}
use rted_tftp.Net.{Net}
use rted_tftp.Net.Quiet.{IsQuiet}
use rted_tftp.Transfer.{FileHandle}
use rted_tftp.Operation.{
  OperationId, operation_receive, operation_send, operation_request_delete, mode_octet,
  OperationData,
}
use rted_tftp.Operation.Fill.{System}
use rted_tftp.Operation.Deletion.{FileSystem}
use rted_tftp.Request.Names.{IsName}
use rted_tftp.Client.{Memory}
use rted_tftp.Exchange.Filling.{Allocates}
use rted_tftp.Exchange.Sides.{Offers, Accepts}
use rted_tftp.Exchange.Download.{Downloads, download-Downloads}
use rted_tftp.Exchange.Upload.{Uploads, upload-Uploads}
use rted_tftp.Exchange.Deletion.{Deletes, deletion-Deletes}
use rted_tftp.Tests.TransferTests.{
  server, client, server_address, client_address, nine, source, target,
}

-- One has the file, the other one can make it.
abbrev opens_source : Bool → Option FileHandle
opens_source true = none
opens_source false = some (source nine)

abbrev creates_target : Bool → Option FileHandle
creates_target true = some target
creates_target false = none

abbrev system : (Bool → Option FileHandle) → System
system fopen = record {
  fopen = λ path writing. fopen writing;
  malloc = λ n. some (zeros n);
  strerror_errno = codes "No such file or directory";
  timestamp = codes "2024-01-01 00:00:00.";
}

abbrev files : FileSystem
files = record { opens = λ path. false; removes = λ path. false; strerror_errno = [] }

abbrev memory : Memory
memory = record {
  first_buffer = replicate 36 170;
  second_buffer = replicate 36 170;
  transfer_allocated = true;
}

abbrev operation : OperationId → OperationData
operation id = record {
  operation_id = id;
  transfer_mode = mode_octet;
  block_size = 8;
  path_len = 4;
  data_socket = 3;
  request_description = codes "READ";
  path = codes "d/a";
}

abbrev socket : Net
socket = record { polls = []; sends = []; inbox = []; peer_address = server_address; sent = [] }

socket-IsQuiet : IsQuiet socket
socket-IsQuiet = record { no_signal = refl; no_loss = refl }

system-Allocates : (fopen : Bool → Option FileHandle) → Allocates (system fopen).malloc
system-Allocates fopen n = (zeros n, refl, length-zeros n)

sample-IsName : IsName (codes "a")
sample-IsName = (((λ e. absurd (omega arith), λ e. absurd (omega arith)), tt), omega arith)

source-Offers : (path : Bytes) → Offers (system opens_source) path (source nine)
source-Offers path = record {
  memory = system-Allocates opens_source;
  opens = refl;
  readable = refl;
}

target-Accepts : (path : Bytes) → Accepts (system creates_target) path 9 target
target-Accepts path = record {
  memory = system-Allocates creates_target;
  absent = refl;
  creates = refl;
  empty = refl;
  room = omega arith;
}

download-Downloads_example :
    Downloads
      (system creates_target)
      (system opens_source)
      files
      memory
      client
      server
      server_address
      client_address
      4
      (operation operation_receive)
      socket
      socket
      nine
download-Downloads_example =
    download-Downloads (system creates_target) (system opens_source) files memory client server
      server_address client_address 4 (operation operation_receive) socket socket (codes "a")
      (source nine) target sample-IsName (inr (codes "d", refl)) refl refl (omega arith)
      (omega arith) refl (source-Offers (codes "storage/a")) (target-Accepts (codes "d/a"))
      socket-IsQuiet socket-IsQuiet refl refl (omega arith)

upload-Uploads_example :
    Uploads
      (system opens_source)
      (system creates_target)
      files
      memory
      client
      server
      server_address
      client_address
      4
      (operation operation_send)
      socket
      socket
      nine
upload-Uploads_example =
    upload-Uploads (system opens_source) (system creates_target) files memory client server
      server_address client_address 4 (operation operation_send) socket socket (codes "a")
      (source nine) target sample-IsName (inr (codes "d", refl)) refl refl (omega arith)
      (omega arith) refl (omega arith) (source-Offers (codes "d/a"))
      (target-Accepts (codes "storage/a")) socket-IsQuiet socket-IsQuiet refl refl (omega arith)

-- The file can be opened, and not removed.
abbrev locked : FileSystem
locked = record {
  opens = λ path. true;
  removes = λ path. false;
  strerror_errno = codes "Permission denied";
}

deletion-Deletes_example :
    Deletes
      (system creates_target)
      (system opens_source)
      locked
      memory
      client
      server
      server_address
      client_address
      4
      (operation operation_request_delete)
      socket
      socket
      (codes "a")
deletion-Deletes_example =
    deletion-Deletes (system creates_target) (system opens_source) locked memory client server
      server_address client_address 4 (operation operation_request_delete) socket socket (codes "a")
      sample-IsName (inr (codes "d", refl)) refl (omega arith) (omega arith) socket-IsQuiet
      socket-IsQuiet refl
