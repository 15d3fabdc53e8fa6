-- ===== src/Operation.antt =====
-- tftp_common.c: `tftp_init_operation_data` and `tftp_fill_transfer_data`, with the parts of the C
-- library that they use. A string argument is its bytes without the terminator, a null pointer is
-- `none`. The peer's address of an operation is the one in its `Net`.
pub mod Fill
pub mod Checks
pub mod Deletion
use rted_tftp.Base.{
  ℕ, zero, suc, ◌+◌, ◌%◌, Bool, true, false, ◌||◌, List, [], ◌∷◌, Option, none, some, length, Bytes,
  codes, if◌then◌else◌, ◌==◌, ltb,
}
use rted_tftp.Protocol.{
  transfer_mode_strings, tftp_blksize_min, tftp_blksize_default, tftp_blksize_max,
  tftp_error_illegal_operation,
}
use rted_tftp.Net.{Address, Host, Net, tftp_send_error}
use rted_tftp.CLibrary.{is_strcasecmp_equal, atoi16}

-- OperationId_t
pub data OperationId : Type 0 where
  operation_undefined operation_receive operation_send : OperationId
  operation_request_delete operation_handle_delete : OperationId

-- TFTPTransferMode_t
pub data TransferMode : Type 0 where
  mode_unspecified mode_octet mode_netascii mode_mail : TransferMode

-- OperationData_t
pub record OperationData : Type 0 where
  pub operation_id : OperationId
  pub transfer_mode : TransferMode
  pub block_size : ℕ
  pub path_len : ℕ
  pub data_socket : ℕ
  pub request_description : Bytes
  pub path : Bytes

-- The cast of an index to the enumeration.
unfoldable pub transfer_mode_at : ℕ → TransferMode
transfer_mode_at zero = mode_octet
transfer_mode_at (suc zero) = mode_netascii
transfer_mode_at (suc (suc idx)) = mode_mail

-- The loop over the known modes.
unfoldable pub match_mode : Bytes → ℕ → List Bytes → TransferMode
match_mode mode_string idx [] = mode_unspecified
match_mode mode_string idx (known ∷ others) =
    if is_strcasecmp_equal mode_string known
    then transfer_mode_at idx
    else match_mode mode_string (suc idx) others

unfoldable pub parse_mode : Option Bytes → TransferMode
parse_mode none = mode_octet
parse_mode (some []) = mode_octet
parse_mode (some (c ∷ s)) = match_mode (c ∷ s) 0 transfer_mode_strings

-- The block size field after `atoi`, in 16 bits.
unfoldable pub requested_block_size : Option Bytes → ℕ
requested_block_size none = 0
requested_block_size (some blocksize_string) = atoi16 blocksize_string

-- What both functions make of a block size: the default one for 0, `none` for one out of range.
unfoldable pub supported_block_size : ℕ → Option ℕ
supported_block_size block_size =
    if block_size == 0
    then some tftp_blksize_default
    else if ltb block_size tftp_blksize_min || ltb tftp_blksize_max block_size
    then none
    else some block_size

abbrev pub Initialised : Type 0
Initialised = Net × Option OperationData

unfoldable pub set_block_size : Host → Net → OperationData → Option ℕ → Initialised
set_block_size h n op none = (
  tftp_send_error h tftp_error_illegal_operation (codes "unsupported block size. Valid range is ")
      (some (codes "8-65464")) n,
  none,
)
set_block_size h n op (some block_size) = (n, some (record op { block_size = block_size }))

unfoldable pub reject_mode : Host → Net → Option Bytes → Initialised
reject_mode h n mode_string = (
  tftp_send_error h tftp_error_illegal_operation (codes "invalid transfer mode: ") mode_string n,
  none,
)

-- The switch over the transfer mode, and what follows it.
unfoldable pub set_mode :
    Host → Net → OperationData → Option Bytes → Option Bytes → TransferMode → Initialised
set_mode h n op mode_string blocksize_string mode_octet =
    set_block_size h n (record op { transfer_mode = mode_octet })
      (supported_block_size (requested_block_size blocksize_string))
set_mode h n op mode_string blocksize_string mode_unspecified = reject_mode h n mode_string
set_mode h n op mode_string blocksize_string mode_netascii = reject_mode h n mode_string
set_mode h n op mode_string blocksize_string mode_mail = reject_mode h n mode_string

-- The structure, zeroed before, with its socket, operation, description and path.
unfoldable pub named_operation : OperationId → ℕ → Bytes → Bytes → OperationData
named_operation operation data_socket description filename = record {
  operation_id = operation;
  transfer_mode = mode_octet;
  block_size = 0;
  path_len = (length filename + 1) % 65536;
  data_socket = data_socket;
  request_description = description;
  path = filename;
}

-- The switch over the operation, and what follows it.
unfoldable pub init_for :
    Host → Net → ℕ → OperationId → Bytes → Option Bytes → Option Bytes → Initialised
init_for h n data_socket operation_undefined filename mode_string blocksize_string =
    (tftp_send_error h tftp_error_illegal_operation (codes "Invalid operation ID") none n, none)
init_for h n data_socket operation_receive filename mode_string blocksize_string =
    set_mode h n (named_operation operation_receive data_socket (codes "READ") filename) mode_string
      blocksize_string (parse_mode mode_string)
init_for h n data_socket operation_send filename mode_string blocksize_string =
    set_mode h n (named_operation operation_send data_socket (codes "WRITE") filename) mode_string
      blocksize_string (parse_mode mode_string)
init_for h n data_socket operation_request_delete filename mode_string blocksize_string =
    (n, some (named_operation operation_request_delete data_socket (codes "DELETE") filename))
init_for h n data_socket operation_handle_delete filename mode_string blocksize_string =
    (n, some (named_operation operation_handle_delete data_socket (codes "DELETE") filename))

-- `data_socket` and `n` are what `tftp_init_bound_data_socket` makes: a fresh socket.
unfoldable pub tftp_init_operation_data :
    Host → Net → ℕ → OperationId → Address → Bytes → Option Bytes → Option Bytes → Initialised
tftp_init_operation_data h n data_socket operation peer_address filename mode_string
      blocksize_string =
    init_for h (record n { peer_address = peer_address }) data_socket operation filename mode_string
      blocksize_string
