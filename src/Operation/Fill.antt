-- ===== src/Operation/Fill.antt =====
-- tftp_common.c, `tftp_fill_transfer_data`: the file of a transfer is opened and its buffers are
-- allocated.
use rted_tftp.Base.{ℕ, ◌+◌, Bool, true, false, Option, none, some, Bytes, codes}
use rted_tftp.Protocol.{
  sizeof_packet, tftp_error_undefined, tftp_error_out_of_space, tftp_error_illegal_operation,
}
use rted_tftp.Net.{Host, Net, tftp_send_error}
use rted_tftp.Transfer.{FileHandle, TransferData, Session}
use rted_tftp.Operation.{OperationData, supported_block_size}

-- What the operating system answers: the file that `fopen` opens, by path and mode ("wb" is `true`),
-- the memory that `malloc` gives, the two strings of `strerror` and of the file's time stamp.
pub record System : Type 0 where
  pub fopen : Bytes → Bool → Option FileHandle
  pub malloc : ℕ → Option Bytes
  pub strerror_errno : Bytes
  pub timestamp : Bytes

-- The end of the function: `true` with what a transfer works on, or `false`, with the file that is
-- still open.
pub data Filled : Type 0 where
  ready : OperationData → Session → Filled
  unready : Option FileHandle → Net → Filled

-- The zeroed structure with its file and its buffers.
unfoldable pub transfer_data : ℕ → FileHandle → Bytes → Bytes → TransferData
transfer_data block_size file data_cells response_cells = record {
  resend_counter = 0;
  response_packet_max_size = sizeof_packet + 32;
  data_packet_max_size = sizeof_packet + block_size;
  current_block_number = 0;
  bytes_received = 0;
  bytes_sent = 0;
  latest_file_bytes_read = 0;
  total_file_bytes_transmitted = 0;
  file = file;
  response_packet = response_cells;
  data_packet = data_cells;
}

-- The two buffers, after both calls of `malloc`.
unfoldable pub fill_buffers :
    System → Host → OperationData → ℕ → FileHandle → Net → Option Bytes → Option Bytes → Filled
fill_buffers sys h op block_size file n (some data_cells) (some response_cells) =
    ready (record op { block_size = block_size })
      record {
        block_size = block_size;
        tx = transfer_data block_size file data_cells response_cells;
        net = n;
      }
fill_buffers sys h op block_size file n none response_cells = unready (some file) (
    tftp_send_error h tftp_error_out_of_space (codes "Failed to allocate packet buffers: ")
      (some sys.strerror_errno) n)
fill_buffers sys h op block_size file n (some data_cells) none = unready (some file) (
    tftp_send_error h tftp_error_out_of_space (codes "Failed to allocate packet buffers: ")
      (some sys.strerror_errno) n)

unfoldable pub fill_block_size :
    System → Host → OperationData → FileHandle → Net → Option ℕ → Filled
fill_block_size sys h op file n none =
    unready (some file)
      (tftp_send_error h tftp_error_illegal_operation (codes "Invalid block size specified") none n)
fill_block_size sys h op file n (some block_size) =
    fill_buffers sys h op block_size file n (sys.malloc (sizeof_packet + block_size))
      (sys.malloc (sizeof_packet + 32))

-- After the second `fopen`.
unfoldable pub fill_file : System → Host → OperationData → Net → Option FileHandle → Filled
fill_file sys h op n none = unready none (
    tftp_send_error h tftp_error_undefined (codes "Failed to acquire file descriptor, details: ")
      (some sys.strerror_errno) n)
fill_file sys h op n (some file) =
    fill_block_size sys h op file n (supported_block_size op.block_size)

-- The check of a receiver: the file must not be there. The code that is sent is the socket's number.
unfoldable pub fill_receiver : System → Host → OperationData → Net → Option FileHandle → Filled
fill_receiver sys h op n (some file) = unready (some file) (
    tftp_send_error h op.data_socket
      (codes "File already exists! To overwrite, request deletion then try again. Creation date: ")
      (some sys.timestamp) n)
fill_receiver sys h op n none = fill_file sys h op n (sys.fopen op.path true)

-- `tftp_fill_transfer_data`; with `allocated` false the pointer is null.
unfoldable pub tftp_fill_transfer_data : System → Host → OperationData → Bool → Bool → Net → Filled
tftp_fill_transfer_data sys h op false receiver n =
    unready none (tftp_send_error h tftp_error_undefined (codes "Internal server error") none n)
tftp_fill_transfer_data sys h op true true n = fill_receiver sys h op n (sys.fopen op.path false)
tftp_fill_transfer_data sys h op true false n = fill_file sys h op n (sys.fopen op.path false)
