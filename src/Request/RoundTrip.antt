-- ===== src/Request/RoundTrip.antt =====
-- What the client requests is what the server makes of it.
pub mod Reading
use rted_tftp.Base.{
  ℕ, ◌+◌, ◌-◌, ◌%◌, ◌≤◌, ◌≡◌, refl, sym, ap, ◌∙◌, subst, Bool, true, false, [], ◌∷◌, ◌++◌, Option,
  none, some, length, take, drop, Bytes, codes, if◌then◌else◌, arith, length-append, append_assoc,
  take_all,
}
use rted_tftp.Protocol.{
  tftp_blksize_string, tftp_blksize_min, tftp_blksize_max, server_storage_path, tftp_filename_max,
}
use rted_tftp.Packet.{Endian, overlay, zeros, ntohs, raw_opcode}
use rted_tftp.Packet.Layout.{network16, zeros-add, overlay-append, length-zeros, ntohs-load16}
use rted_tftp.Net.{Address, Host, Net}
use rted_tftp.CLibrary.{c_string}
use rted_tftp.Operation.{
  OperationId, operation_receive, operation_send, operation_request_delete, operation_handle_delete,
  operation_undefined, mode_octet, OperationData, named_operation, requested_block_size,
  supported_block_size, set_block_size, set_mode, parse_mode, match_mode, transfer_mode_at,
  init_for, tftp_init_operation_data,
}
use rted_tftp.Request.{
  is_custom, five_digits, request_packet, request_fields, fields, stored_path, parsed,
  parse_transfer, parse_opcode, server_parse_request_data,
}
use rted_tftp.Request.Layout.{request_bytes, IsTransfer}
use rted_tftp.Request.Digits.{atoi16-five_digits}
use rted_tftp.Request.Names.{IsName, EndsWith, opcode_of, request_packet-request_bytes}
use rted_tftp.Request.Reading.{contents_of, c_string-append, plain_fields, custom_fields}
pub use rted_tftp.Request.RoundTrip.Reading.{buffered}
use rted_tftp.Request.RoundTrip.Reading.{
  size_string, with_option, length-with_option, fields_with_option, size_read, name_stored,
  option_of, octet_request,
}

-- The server's side of an operation.
abbrev pub mirrored : OperationId → OperationId
mirrored operation_receive = operation_send
mirrored operation_send = operation_receive
mirrored operation = operation

abbrev description_of : OperationId → Bytes
description_of operation_receive = codes "READ"
description_of _ = codes "WRITE"

-- What the server should work on: the client's operation from the other side, in octet mode, with the
-- same block size, on the file of that name in its storage.
abbrev pub served : OperationId → ℕ → Bytes → ℕ → OperationData
served operation data_socket name block_size = record {
  operation_id = mirrored operation;
  transfer_mode = mode_octet;
  block_size = block_size;
  path_len = (length (server_storage_path ++ name) + 1) % 65536;
  data_socket = data_socket;
  request_description = description_of (mirrored operation);
  path = server_storage_path ++ name;
}

octet_parsed :
    (h : Host) (n : Net) (op : OperationData) (size : Option Bytes) (bs : ℕ)
    → supported_block_size (requested_block_size size) ≡ some bs
    → set_mode h n op (some (codes "octet")) size (parse_mode (some (codes "octet")))
      ≡ (n, some (record op { transfer_mode = mode_octet; block_size = bs }))
unfolding set_mode set_block_size parse_mode match_mode transfer_mode_at
    rted_tftp.CLibrary.is_strcasecmp_equal rted_tftp.CLibrary.tolower
octet_parsed h n op size bs e = rw e refl

opcode_parsed :
    (o : OperationId) (h : Host) (fresh : Net) (data_socket : ℕ) (client : Address)
    (contents name : Bytes) (received bs : ℕ) (size : Option Bytes)
    → IsTransfer o
    → request_fields contents received ≡ fields (codes "octet") size
    → stored_path contents ≡ server_storage_path ++ name
    → supported_block_size (requested_block_size size) ≡ some bs
    → parse_opcode h fresh data_socket client contents received (opcode_of o)
      ≡ parsed (record fresh { peer_address = client }, some (served o data_socket name bs))
unfolding parse_opcode parse_transfer tftp_init_operation_data init_for named_operation
opcode_parsed operation_receive h fresh sock client contents name received bs size t f p s =
    rw (f, p) (ap parsed (octet_parsed h (record fresh { peer_address = client }) _ size bs s))
opcode_parsed operation_send h fresh sock client contents name received bs size t f p s =
    rw (f, p) (ap parsed (octet_parsed h (record fresh { peer_address = client }) _ size bs s))
opcode_parsed operation_request_delete h fresh sock client contents name received bs size t f p s =
    absurd t
opcode_parsed operation_handle_delete h fresh sock client contents name received bs size t f p s =
    absurd t
opcode_parsed operation_undefined h fresh sock client contents name received bs size t f p s =
    absurd t

some-injective : {a b : Bytes} → some a ≡ some b → a ≡ b
some-injective e = cc

opcode_read :
    (e : Endian) (custom : Bool) (o : OperationId) (name z : Bytes) (bs : ℕ)
    → IsTransfer o
    → ntohs e (raw_opcode e (with_option custom (opcode_of o) name bs ++ z)) ≡ opcode_of o
opcode_read e custom operation_receive name z bs t = rw ntohs-load16 refl
opcode_read e custom operation_send name z bs t = rw ntohs-load16 refl
opcode_read e custom operation_request_delete name z bs t = absurd t
opcode_read e custom operation_handle_delete name z bs t = absurd t
opcode_read e custom operation_undefined name z bs t = absurd t

request_served :
    (custom : Bool) (h : Host) (fresh : Net) (data_socket : ℕ) (client : Address) (o : OperationId)
    (name : Bytes) (bs : ℕ)
    → is_custom bs ≡ custom
    → IsName name
    → IsTransfer o
    → tftp_blksize_min ≤ bs
    → bs ≤ tftp_blksize_max
    → (let packet = with_option custom (opcode_of o) name bs in
        server_parse_request_data h fresh data_socket client
          (overlay (zeros 514) packet)
          (length packet)
        ≡ parsed (record fresh { peer_address = client }, some (served o data_socket name bs)))
unfolding server_parse_request_data
request_served custom h fresh data_socket client o name bs c a t lo hi =
    let packet = with_option custom (opcode_of o) name bs in
    let z = zeros (514 - length packet) in
    let len = length-with_option custom (opcode_of o) name bs in
    let fits : length packet ≤ 514 =
      elim custom
          as (λ b. length packet ≡ length name + (if b then 24 else 10) → length packet ≤ 514) [
            | true ↦ λ l. omega (arith, l, a.1)
            | false ↦ λ l. omega (arith, l, a.1)
          ]
        len in
    rw (buffered packet fits, opcode_read h.endian custom o name z bs t)
      (opcode_parsed o h fresh data_socket client (drop 2 (packet ++ z)) name (length packet) bs _ t
        (fields_with_option custom (opcode_of o) name z bs (length packet) a len)
        (name_stored custom (opcode_of o) name z bs a) (size_read custom bs c lo hi))

-- A client's transfer in octet mode with a block size from 8 to 65464, whose path ends with a name of
-- at most 255 bytes with neither zeros nor slashes: from the packet that the client sends for it, the
-- server makes the same operation from the other side, with the same block size, on the file of that
-- name in its storage, and reads nothing past its buffer. The two hosts may differ in byte order.
pub request_round_trip :
    (e : Endian) (op : OperationData) (name packet : Bytes) (h : Host) (fresh : Net)
    (data_socket : ℕ) (client : Address)
    → IsName name
    → EndsWith op name
    → IsTransfer op.operation_id
    → op.transfer_mode ≡ mode_octet
    → tftp_blksize_min ≤ op.block_size
    → op.block_size ≤ tftp_blksize_max
    → request_packet e op ≡ some packet
    → server_parse_request_data h fresh data_socket client
        (overlay (zeros 514) packet)
        (length packet)
      ≡ parsed (
        record fresh { peer_address = client },
        some (served op.operation_id data_socket name op.block_size),
      )
request_round_trip e op name packet h fresh data_socket client a p t m lo hi sent =
    let same : request_bytes (opcode_of op.operation_id) name (codes "octet") op.block_size
        ≡ packet =
      some-injective (sym (request_packet-request_bytes e op name a p t m) ∙ sent) in
    subst
      (λ b.
        server_parse_request_data h fresh data_socket client (overlay (zeros 514) b) (length b)
        ≡ parsed (
          record fresh { peer_address = client },
          some (served op.operation_id data_socket name op.block_size),
        ))
      same
      (request_served (is_custom op.block_size) h fresh data_socket client op.operation_id name
        op.block_size refl a t lo hi)
