-- ===== src/Request.antt =====
-- The requests: client.c, `send_request_packet`, and server.c, `server_parse_request_data`.
pub mod Layout
pub mod Names
pub mod Digits
pub mod Reading
pub mod RoundTrip
pub mod Bounds
pub mod Deletion
use rted_tftp.Base.{
  ℕ, ◌+◌, ◌/◌, ◌%◌, Bool, true, false, not, ◌&&◌, ◌||◌, [], ◌∷◌, ◌++◌, Option, none, some, length,
  take, drop, Bytes, codes, if◌then◌else◌, ◌==◌, ltb, leb,
}
use rted_tftp.Protocol.{
  sizeof_packet, tftp_rrq, tftp_wrq, tftp_drq, tftp_blksize_default, tftp_blksize_string,
  tftp_filename_max, server_storage_path,
}
use rted_tftp.Packet.{Endian, htons, ntohs, store16, raw_opcode, poke, zeros}
use rted_tftp.Net.{Address, Host, Net, sendto}
use rted_tftp.CLibrary.{tolower, skip_spaces, c_string}
use rted_tftp.Operation.{
  OperationId, operation_undefined, operation_receive, operation_send, operation_request_delete,
  operation_handle_delete, TransferMode, mode_unspecified, mode_octet, mode_netascii, mode_mail,
  OperationData, Initialised, tftp_init_operation_data,
}

-- `strrchr(path, '/') + 1`
unfoldable pub after_last_slash : Bytes → Option Bytes
after_last_slash [] = none
after_last_slash (c ∷ s) = elim (after_last_slash s) [
  | some name ↦ some name
  | none ↦ if c == 47 then some s else none
]

-- The `filename_len` bytes that are copied: the name with its terminator.
unfoldable pub filename_field : OperationData → Bytes
filename_field op = elim (after_last_slash op.path) [
  | none ↦ take op.path_len (op.path ++ 0 ∷ [])
  | some name ↦ name ++ 0 ∷ []
]

-- `transfer_mode_strings` at the mode; for a negative one the program exits.
unfoldable pub mode_string_of : TransferMode → Option Bytes
mode_string_of mode_unspecified = none
mode_string_of mode_octet = some (codes "octet")
mode_string_of mode_netascii = some (codes "netascii")
mode_string_of mode_mail = some (codes "mail")

unfoldable pub is_custom : ℕ → Bool
is_custom block_size = ltb 0 block_size && not (block_size == tftp_blksize_default)

-- `sprintf("%05u")` of a 16-bit number.
unfoldable pub five_digits : ℕ → Bytes
five_digits n =
    (48 + n / 10000 % 10)
    ∷ (48 + n / 1000 % 10)
    ∷ (48 + n / 100 % 10)
    ∷ (48 + n / 10 % 10)
    ∷ (48 + n % 10)
    ∷ []

-- The opcode of a request; for other operations the program exits.
unfoldable pub request_opcode : OperationId → Option ℕ
request_opcode operation_receive = some tftp_rrq
request_opcode operation_send = some tftp_wrq
request_opcode operation_request_delete = some tftp_drq
request_opcode operation_undefined = none
request_opcode operation_handle_delete = none

-- The copies into the contents of a request, which begin at offset 2; the index has 16 bits.
unfoldable pub write_contents : OperationId → Bytes → Bytes → ℕ → Bytes → Bytes
write_contents operation filename mode_string block_size m =
    let after_name = length filename % 65536 in
    let after_mode = (after_name + length mode_string) % 65536 in
    let at_option = (after_mode + 1) % 65536 in
    let named = poke 2 filename m in
    let moded = poke (2 + after_name) mode_string named in
    let keyed = poke (2 + at_option) (tftp_blksize_string ++ 0 ∷ []) moded in
    let sized = poke (2 + (at_option + 8) % 65536) (five_digits block_size ++ 0 ∷ []) keyed in
    elim operation [
      | operation_request_delete ↦ named
      | _ ↦ if is_custom block_size then sized else moded
    ]

-- `full_packet_size`
unfoldable pub request_size : OperationId → Bytes → Bytes → ℕ → ℕ
request_size operation filename mode_string block_size = elim operation [
  | operation_request_delete ↦ sizeof_packet + length filename
  | _ ↦
      sizeof_packet
      + (length filename + (length mode_string + (if is_custom block_size then 8 + 6 else 0)))
]

unfoldable pub fill_request : Endian → OperationData → Bytes → ℕ → Bytes
fill_request e op mode_string opcode =
    let filename = filename_field op in
    let zeroed = zeros (request_size op.operation_id filename mode_string op.block_size) in
    write_contents op.operation_id filename mode_string op.block_size
      (poke 0 (store16 e (htons e opcode)) zeroed)

unfoldable pub request_with_mode : Endian → OperationData → Option Bytes → Option ℕ → Option Bytes
request_with_mode e op (some mode_string) (some opcode) =
    some (fill_request e op mode_string opcode)
request_with_mode e op none opcode = none
request_with_mode e op (some mode_string) none = none

-- The packet of `send_request_packet`; with `none` the program exits. A deletion has no mode.
unfoldable pub request_packet : Endian → OperationData → Option Bytes
request_packet e op = elim op.operation_id [
  | operation_request_delete ↦
      request_with_mode e op (some []) (request_opcode operation_request_delete)
  | operation ↦ request_with_mode e op (mode_string_of op.transfer_mode) (request_opcode operation)
]

-- `send_request_packet`
unfoldable pub send_request_packet : Host → OperationData → Net → Option (Bool × Net)
send_request_packet h op n = elim (request_packet h.endian op) [
  | none ↦ none
  | some m ↦ some (sendto n m)
]

-- The string at an index of a buffer; `none` if it does not end within.
unfoldable pub terminated : Bytes → Option Bytes
terminated [] = none
terminated (c ∷ m) =
    if c == 0 then some [] else elim (terminated m) [ none ↦ none | some s ↦ some (c ∷ s) ]

-- `strcasecmp(cells, t) == 0`, up to the first difference; `none` if it reads past the cells.
unfoldable pub compare_cells : Bytes → Bytes → Option Bool
compare_cells [] t = none
compare_cells (c ∷ m) [] = some (c == 0)
compare_cells (c ∷ m) (d ∷ t) = if tolower c == tolower d then compare_cells m t else some false

unfoldable pub digits_run_off : Bytes → Bool
digits_run_off [] = true
digits_run_off (c ∷ m) = if leb 48 c && leb c 57 then digits_run_off m else false

-- `atoi` reads past the cells.
unfoldable pub atoi_runs_off : Bytes → Bool
atoi_runs_off cells = elim (skip_spaces cells) [
  | [] ↦ true
  | c ∷ m ↦ if c == 45 || c == 43 then digits_run_off m else digits_run_off (c ∷ m)
]

-- The mode and block size strings of a request, or a read past the buffer.
pub data Fields : Type 0 where
  fields : Bytes → Option Bytes → Fields
  outside : Fields

unfoldable pub read_octets : Bytes → Bytes → Fields
read_octets mode_string cells =
    if atoi_runs_off cells then outside else fields mode_string (some (c_string cells))

unfoldable pub on_option : Bytes → Bytes → ℕ → ℕ → Option Bool → Fields
on_option contents mode_string contents_index bytes_received none = outside
on_option contents mode_string contents_index bytes_received (some false) = fields mode_string none
on_option contents mode_string contents_index bytes_received (some true) =
    if ltb (contents_index + 4) bytes_received
    then read_octets mode_string (drop (contents_index + length tftp_blksize_string + 1) contents)
    else fields mode_string none

unfoldable pub on_mode : Bytes → ℕ → ℕ → Option Bytes → Fields
on_mode contents contents_index bytes_received none = outside
on_mode contents contents_index bytes_received (some mode_string) =
    let next = contents_index + (length mode_string + 1) in
    if ltb (contents_index + 4) bytes_received
    then on_option contents mode_string next bytes_received
        (compare_cells (drop next contents) tftp_blksize_string)
    else fields mode_string none

unfoldable pub on_name : Bytes → ℕ → Option Bytes → Fields
on_name contents bytes_received none = outside
on_name contents bytes_received (some name) =
    on_mode contents (length name + 1) bytes_received (terminated (drop (length name + 1) contents))

unfoldable pub request_fields : Bytes → ℕ → Fields
request_fields contents bytes_received = on_name contents bytes_received (terminated contents)

-- `SERVER_STORAGE_PATH`, and `strncat` of the name.
unfoldable pub stored_path : Bytes → Bytes
stored_path contents = server_storage_path ++ take tftp_filename_max (c_string contents)

pub data Parsed : Type 0 where
  parsed : Initialised → Parsed
  overread : Parsed

unfoldable pub parse_transfer : Host → Net → ℕ → OperationId → Address → Bytes → Fields → Parsed
parse_transfer h fresh data_socket operation client_address contents outside = overread
parse_transfer h fresh data_socket operation client_address contents
      (fields mode_string blksize_octets_string) =
    parsed (
      tftp_init_operation_data h fresh data_socket operation client_address (stored_path contents)
        (some mode_string) blksize_octets_string)

-- The switch over the opcode, and what follows it. `fresh` and `data_socket` are the socket that
-- `tftp_init_operation_data` makes.
unfoldable pub parse_opcode : Host → Net → ℕ → Address → Bytes → ℕ → ℕ → Parsed
parse_opcode h fresh data_socket client_address contents bytes_received opcode =
    let of_fields = request_fields contents bytes_received in
    if opcode == tftp_rrq
    then parse_transfer h fresh data_socket operation_send client_address contents of_fields
    else if opcode == tftp_wrq
    then parse_transfer h fresh data_socket operation_receive client_address contents of_fields
    else if opcode == tftp_drq
    then parsed (
        tftp_init_operation_data h fresh data_socket operation_handle_delete client_address
          (stored_path contents) none none)
    else parsed (fresh, none)

-- `server_parse_request_data`
unfoldable pub server_parse_request_data : Host → Net → ℕ → Address → Bytes → ℕ → Parsed
server_parse_request_data h fresh data_socket client_address request_buffer bytes_received =
    parse_opcode h fresh data_socket client_address (drop 2 request_buffer) bytes_received
      (ntohs h.endian (raw_opcode h.endian request_buffer))
