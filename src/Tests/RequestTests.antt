-- ===== src/Tests/RequestTests.antt =====
-- Requests at concrete inputs.
use rted_tftp.Base.{◌≡◌, ◌≢◌, refl, inr, true, [], ◌∷◌, ◌++◌, some, codes, Bytes, arith, length}
use rted_tftp.Packet.{little, big, zeros, overlay, poke, htons, store16}
use rted_tftp.Net.{Address, Host, Net}
use rted_tftp.Operation.{
  OperationId, operation_send, operation_request_delete, mode_octet, OperationData,
}
use rted_tftp.Request.{
  request_packet, request_with_mode, request_opcode, fill_request, write_contents, request_size,
  filename_field, after_last_slash, is_custom, five_digits, mode_string_of, parsed, overread,
  server_parse_request_data, request_fields, outside, on_name, terminated,
}
use rted_tftp.Request.Names.{IsName, request_packet-request_bytes}
use rted_tftp.Request.Layout.{request_bytes}
use rted_tftp.Request.Bounds.{server_parse_request_data-within}
use rted_tftp.Request.RoundTrip.{served, request_round_trip}

abbrev server : Host
server = record { endian = little; is_server = true }

abbrev peer : Address
peer = record { sin_addr = 1; sin_port = 49152 }

abbrev fresh : Net
fresh = record { polls = []; sends = []; inbox = []; peer_address = peer; sent = [] }

abbrev operation : OperationId → OperationData
operation id = record {
  operation_id = id;
  transfer_mode = mode_octet;
  block_size = 1024;
  path_len = 4;
  data_socket = 3;
  request_description = codes "WRITE";
  path = codes "d/a";
}

abbrev request : Bytes
request =
    0
    ∷ 2
    ∷ 97
    ∷ 0
    ∷ (codes "octet" ++ (0 ∷ (codes "blksize" ++ (0 ∷ (codes "01024" ++ (0 ∷ 0 ∷ []))))))

runs_request_packet : request_packet little (operation operation_send) ≡ some request
unfolding request_packet request_with_mode request_opcode fill_request write_contents request_size
    filename_field after_last_slash is_custom five_digits mode_string_of poke overlay htons store16
runs_request_packet = refl

-- A deletion carries the name alone.
runs_request_delete :
    request_packet big (operation operation_request_delete) ≡ some (0 ∷ 6 ∷ 97 ∷ 0 ∷ 0 ∷ 0 ∷ [])
unfolding request_packet request_with_mode request_opcode fill_request write_contents request_size
    filename_field after_last_slash is_custom five_digits poke overlay htons store16
runs_request_delete = refl

-- A request that fills the buffer without a zero byte is read past its end.
runs_overread : request_fields (97 ∷ 98 ∷ 99 ∷ []) 5 ≡ outside
unfolding request_fields on_name terminated
runs_overread = refl

sample-IsName : IsName (codes "a")
sample-IsName = (((λ e. absurd (omega arith), λ e. absurd (omega arith)), tt), omega arith)

request_packet-request_bytes_example :
    request_packet little (operation operation_send)
    ≡ some (request_bytes 2 (codes "a") (codes "octet") 1024)
request_packet-request_bytes_example =
    request_packet-request_bytes little (operation operation_send) (codes "a") sample-IsName
      (inr (codes "d", refl)) tt refl

request_round_trip_example :
    server_parse_request_data server fresh 4 peer (overlay (zeros 514) request) (length request)
    ≡ parsed (record fresh { peer_address = peer }, some (served operation_send 4 (codes "a") 1024))
request_round_trip_example =
    request_round_trip little (operation operation_send) (codes "a") request server fresh 4 peer
      sample-IsName (inr (codes "d", refl)) tt refl (omega arith) (omega arith) runs_request_packet

-- A request in which no byte is zero.
server_parse_request_data-within_example :
    server_parse_request_data server fresh 4 peer (overlay (zeros 514) (0 ∷ 1 ∷ 97 ∷ [])) 3
    ≢ overread
server_parse_request_data-within_example =
    server_parse_request_data-within server fresh 4 peer (0 ∷ 1 ∷ 97 ∷ []) (omega arith)
