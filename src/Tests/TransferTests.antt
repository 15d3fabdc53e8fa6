-- ===== src/Tests/TransferTests.antt =====
-- A file of nine bytes in blocks of eight, and one of eight, between a server and a client.
use rted_tftp.Base.{
  ◌≡◌, ◌≢◌, refl, Bool, true, false, List, [], ◌∷◌, ◌++◌, map, some, replicate, Bytes, codes, arith,
  inl, inr,
}
use rted_tftp.Packet.{little, big, ntohs, load16, raw_opcode}
use rted_tftp.Net.{Address, Host, Arrival, packet, timed_out, failed}
use rted_tftp.Net.Quiet.{IsQuiet}
use rted_tftp.Transfer.{FileHandle, Session, IsReady}
use rted_tftp.Transfer.Blocks.{ack_packets, block_packets, block_packet}
use rted_tftp.Transfer.Transmit.{tftp_transmit_file}
use rted_tftp.Transfer.Transmit.Total.{transmit_total}
use rted_tftp.Transfer.Transmit.Lossless.{Transmits, transmit_lossless}
use rted_tftp.Transfer.Receive.{tftp_receive_file, finished, spent}
use rted_tftp.Transfer.Receive.Total.{receive_total}
use rted_tftp.Transfer.Receive.Safety.{EndsSafely, receive_safe}
use rted_tftp.Transfer.Receive.Ending.{Receives, receive_lossless, receive_multiple_fails}
use rted_tftp.Transfer.Delivery.{Delivers, transfer-Delivers}

abbrev pub server : Host
server = record { endian = little; is_server = true }

abbrev pub client : Host
client = record { endian = big; is_server = false }

abbrev pub server_address : Address
server_address = record { sin_addr = 1; sin_port = 49152 }

abbrev pub client_address : Address
client_address = record { sin_addr = 2; sin_port = 50000 }

abbrev pub nine : Bytes
nine = codes "nine byte"

abbrev pub eight : Bytes
eight = codes "8 bytes."

abbrev pub session : Address → FileHandle → List Arrival → Session
session peer file inbox = record {
  block_size = 8;
  tx = record {
    resend_counter = 0;
    response_packet_max_size = 36;
    data_packet_max_size = 12;
    current_block_number = 0;
    bytes_received = 0;
    bytes_sent = 0;
    latest_file_bytes_read = 0;
    total_file_bytes_transmitted = 0;
    file = file;
    response_packet = replicate 36 170;
    data_packet = replicate 12 170;
  };
  net = record { polls = []; sends = []; inbox = inbox; peer_address = peer; sent = [] };
}

abbrev pub source : Bytes → FileHandle
source bytes = record { unread = bytes; read_fails = false; written = []; room = 0 }

abbrev pub target : FileHandle
target = record { unread = []; read_fails = false; written = []; room = 100 }

abbrev pub sender : List Arrival → Session
sender = session client_address (source nine)

abbrev pub receiver : List Arrival → Session
receiver = session server_address target

pub session-IsReady :
    (peer : Address) (file : FileHandle) (inbox : List Arrival)
    → IsReady 8 (session peer file inbox)
session-IsReady peer file inbox = record {
  size = refl;
  max_size = refl;
  response_max = refl;
  number = refl;
  counter = refl;
  data_buffer = refl;
  response_buffer = refl;
}

pub session-IsQuiet :
    (peer : Address) (file : FileHandle) (inbox : List Arrival)
    → IsQuiet (session peer file inbox).net
session-IsQuiet peer file inbox = record { no_signal = refl; no_loss = refl }

abbrev pub acks : List Arrival
acks = map (packet client_address) (ack_packets little 0 2)

abbrev pub blocks : Bytes → List Arrival
blocks file = map (packet server_address) (block_packets big 8 file 0 2)

transmit_total_example : (r : Bool × Session) × (tftp_transmit_file server (sender []) ≡ some r)
transmit_total_example = transmit_total server (sender []) (omega arith) refl

transmit_lossless_example :
    Transmits server 8 client_address (failed ∷ []) (sender (acks ++ failed ∷ []))
transmit_lossless_example =
    transmit_lossless server 8 client_address (failed ∷ []) (sender (acks ++ failed ∷ []))
      (omega arith) (session-IsReady client_address (source nine) (acks ++ failed ∷ [])) refl
      (session-IsQuiet client_address (source nine) (acks ++ failed ∷ [])) refl refl

receive_total_example : ¬ (tftp_receive_file client (receiver (failed ∷ [])) ≡ spent)
receive_total_example = receive_total client (receiver (failed ∷ []))

-- The second block comes first, the first one twice, and an ACK packet is among them.
abbrev pub disorder : List Arrival
disorder =
    packet server_address (block_packet big 8 nine 1)
    ∷ packet server_address (block_packet big 8 nine 0)
    ∷ packet server_address (0 ∷ 4 ∷ 0 ∷ 1 ∷ [])
    ∷ timed_out
    ∷ packet server_address (block_packet big 8 nine 0)
    ∷ packet server_address (block_packet big 8 nine 1)
    ∷ []

ack_no_data : ntohs big (raw_opcode big (0 ∷ 4 ∷ 0 ∷ 1 ∷ [])) ≢ 3
unfolding ntohs load16
ack_no_data = omega arith

receive_safe_example : EndsSafely client 8 nine (tftp_receive_file client (receiver disorder))
receive_safe_example =
    receive_safe client 8 nine (receiver disorder) (omega arith) (omega arith) (omega arith)
      (session-IsReady server_address target disorder) refl (omega arith)
      (
        inl (1, omega arith, refl),
        (
          inl (0, omega arith, refl),
          (
            inr (omega arith, ack_no_data),
            (tt, (inl (0, omega arith, refl), (inl (1, omega arith, refl), tt))),
          ),
        ),
      )

receive_lossless_example : Receives client 8 nine server_address (receiver (blocks nine ++ []))
receive_lossless_example =
    receive_lossless client 8 nine server_address [] (receiver (blocks nine ++ [])) (omega arith)
      (omega arith) (session-IsReady server_address target (blocks nine ++ [])) refl (omega arith)
      (session-IsQuiet server_address target (blocks nine ++ [])) refl (omega arith)

receive_multiple_fails_example :
    (t : Session) × (tftp_receive_file client (receiver (blocks eight ++ [])) ≡ finished false t)
    × (t.tx.file.written ≡ eight)
receive_multiple_fails_example =
    receive_multiple_fails client 8 eight server_address [] (receiver (blocks eight ++ []))
      (omega arith) (omega arith) (session-IsReady server_address target (blocks eight ++ [])) refl
      (omega arith) (session-IsQuiet server_address target (blocks eight ++ [])) refl refl

transfer-Delivers_example :
    Delivers server client server_address client_address (sender []) (receiver [])
transfer-Delivers_example =
    transfer-Delivers server client 8 server_address client_address (sender []) (receiver [])
      (omega arith) (omega arith) (session-IsReady client_address (source nine) [])
      (session-IsReady server_address target []) refl refl (omega arith)
      (session-IsQuiet client_address (source nine) []) (session-IsQuiet server_address target [])
      refl refl refl (omega arith)
