-- ===== src/Operation/Checks.antt =====
-- What a finished initialisation guarantees to the transfer functions.
use rted_tftp.Base.{
  ℕ, ◌+◌, Bool, true, false, Option, none, some, ◌≡◌, refl, ◌≢◌, ◌≤◌, ◌⊎◌, inl, inr, Bytes, length,
  arith,
}
use rted_tftp.Protocol.{sizeof_packet, tftp_blksize_min, tftp_blksize_max}
use rted_tftp.Net.{Address, Host, Net}
use rted_tftp.Transfer.{FileHandle, IsReady}
use rted_tftp.Operation.{
  OperationId, operation_undefined, operation_receive, operation_send, operation_request_delete,
  operation_handle_delete, TransferMode, mode_unspecified, mode_octet, mode_netascii, mode_mail,
  OperationData, parse_mode, requested_block_size, supported_block_size, Initialised,
  set_block_size, reject_mode, set_mode, named_operation, init_for, tftp_init_operation_data,
}
use rted_tftp.Operation.Fill.{
  System, Filled, ready, unready, transfer_data, fill_buffers, fill_block_size, fill_file,
  fill_receiver, tftp_fill_transfer_data,
}

abbrev pub IsSupported : Option ℕ → Type 0
IsSupported none = Unit {0}
IsSupported (some bs) = (tftp_blksize_min ≤ bs) × (bs ≤ tftp_blksize_max)

pub supported_block_size-IsSupported : (bs : ℕ) → IsSupported (supported_block_size bs)
unfolding supported_block_size
supported_block_size-IsSupported bs = ground arith

abbrev IsDelete : OperationId → Type 0
IsDelete operation = (operation ≡ operation_request_delete) ⊎ (operation ≡ operation_handle_delete)

-- An operation that is returned is the one asked for, with nothing sent, and a transfer in octet mode
-- with a block size in range; only a transfer or an undefined operation is refused.
abbrev pub IsChecked : Net → OperationId → Bytes → Initialised → Type 0
IsChecked n operation filename (m, none) =
    (operation ≢ operation_request_delete) × (operation ≢ operation_handle_delete)
IsChecked n operation filename (m, some op) =
    (m ≡ n)
    × (op.operation_id ≡ operation)
    × (op.path ≡ filename)
    × (IsDelete operation
        ⊎ ((op.transfer_mode ≡ mode_octet)
            × (tftp_blksize_min ≤ op.block_size)
            × (op.block_size ≤ tftp_blksize_max)))

set_block_size-IsChecked :
    (h : Host) (n : Net) (op : OperationData) (operation : OperationId) (filename : Bytes)
    (o : Option ℕ)
    → (operation ≢ operation_request_delete) × (operation ≢ operation_handle_delete)
    → op.operation_id ≡ operation
    → op.path ≡ filename
    → op.transfer_mode ≡ mode_octet
    → IsSupported o
    → IsChecked n operation filename (set_block_size h n op o)
unfolding set_block_size
set_block_size-IsChecked h n op operation filename none d i p m s = d
set_block_size-IsChecked h n op operation filename (some bs) d i p m s =
    (refl, i, p, inr (m, s.0, s.1))

set_mode-IsChecked :
    (h : Host) (n : Net) (op : OperationData) (operation : OperationId) (filename : Bytes)
    (mode_string blocksize_string : Option Bytes) (mode : TransferMode)
    → (operation ≢ operation_request_delete) × (operation ≢ operation_handle_delete)
    → op.operation_id ≡ operation
    → op.path ≡ filename
    → IsChecked n operation filename (set_mode h n op mode_string blocksize_string mode)
unfolding set_mode reject_mode
set_mode-IsChecked h n op operation filename ms bs mode_octet d i p =
    set_block_size-IsChecked h n (record op { transfer_mode = mode_octet }) operation filename _ d i
      p refl (supported_block_size-IsSupported (requested_block_size bs))
set_mode-IsChecked h n op operation filename ms bs mode_unspecified d i p = d
set_mode-IsChecked h n op operation filename ms bs mode_netascii d i p = d
set_mode-IsChecked h n op operation filename ms bs mode_mail d i p = d

init_for-IsChecked :
    (h : Host) (n : Net) (data_socket : ℕ) (operation : OperationId) (filename : Bytes)
    (mode_string blocksize_string : Option Bytes)
    → IsChecked n operation filename
        (init_for h n data_socket operation filename mode_string blocksize_string)
unfolding init_for named_operation
init_for-IsChecked h n sock operation_undefined filename ms bs = (λ e. cc, λ e. cc)
init_for-IsChecked h n sock operation_receive filename ms bs =
    set_mode-IsChecked h n _ operation_receive filename ms bs (parse_mode ms) (λ e. cc, λ e. cc)
      refl refl
init_for-IsChecked h n sock operation_send filename ms bs =
    set_mode-IsChecked h n _ operation_send filename ms bs (parse_mode ms) (λ e. cc, λ e. cc) refl
      refl
init_for-IsChecked h n sock operation_request_delete filename ms bs =
    (refl, refl, refl, inl (inl refl))
init_for-IsChecked h n sock operation_handle_delete filename ms bs =
    (refl, refl, refl, inl (inr refl))

-- `tftp_init_operation_data` either returns the operation that was asked for, with nothing sent, and
-- for a transfer octet mode and a block size from 8 to 65464, or returns null, and never for a
-- deletion.
pub init_operation_data-IsChecked :
    (h : Host) (n : Net) (data_socket : ℕ) (operation : OperationId) (peer : Address)
    (filename : Bytes) (mode_string blocksize_string : Option Bytes)
    → IsChecked
        (record n { peer_address = peer })
        operation
        filename
        (tftp_init_operation_data h n data_socket operation peer filename mode_string
          blocksize_string)
unfolding tftp_init_operation_data
init_operation_data-IsChecked h n sock operation peer filename ms bs =
    init_for-IsChecked h (record n { peer_address = peer }) sock operation filename ms bs

-- `malloc` gives a region of the size asked for.
abbrev pub IsAllocator : (ℕ → Option Bytes) → Type 0
IsAllocator malloc = (n : ℕ) (m : Bytes) → malloc n ≡ some m → length m ≡ n

-- A structure that is ready is fresh, with a block size in range, and the socket is untouched.
abbrev pub IsOpen : Net → Filled → Type 0
IsOpen n (ready op s) =
    IsReady op.block_size s
    × (tftp_blksize_min ≤ op.block_size)
    × (op.block_size ≤ tftp_blksize_max)
    × (s.net ≡ n)
IsOpen n (unready file m) = Unit {0}

fill_buffers-IsOpen :
    (sys : System) (h : Host) (op : OperationData) (bs : ℕ) (file : FileHandle) (n : Net)
    (data_cells response_cells : Option Bytes)
    → (tftp_blksize_min ≤ bs) × (bs ≤ tftp_blksize_max)
    → ((m : Bytes) → data_cells ≡ some m → length m ≡ sizeof_packet + bs)
    → ((m : Bytes) → response_cells ≡ some m → length m ≡ sizeof_packet + 32)
    → IsOpen n (fill_buffers sys h op bs file n data_cells response_cells)
unfolding fill_buffers transfer_data
fill_buffers-IsOpen sys h op bs file n (some d) (some r) range ld lr = (
  record {
    size = refl;
    max_size = refl;
    response_max = refl;
    number = refl;
    counter = refl;
    data_buffer = ld d refl;
    response_buffer = lr r refl;
  },
  range.0,
  range.1,
  refl,
)
fill_buffers-IsOpen sys h op bs file n none r range ld lr = tt
fill_buffers-IsOpen sys h op bs file n (some d) none range ld lr = tt

fill_block_size-IsOpen :
    (sys : System) (h : Host) (op : OperationData) (file : FileHandle) (n : Net) (o : Option ℕ)
    → IsAllocator sys.malloc
    → IsSupported o
    → IsOpen n (fill_block_size sys h op file n o)
unfolding fill_block_size
fill_block_size-IsOpen sys h op file n none a s = tt
fill_block_size-IsOpen sys h op file n (some bs) a s =
    fill_buffers-IsOpen sys h op bs file n _ _ s (a (sizeof_packet + bs)) (a (sizeof_packet + 32))

fill_file-IsOpen :
    (sys : System) (h : Host) (op : OperationData) (n : Net) (o : Option FileHandle)
    → IsAllocator sys.malloc
    → IsOpen n (fill_file sys h op n o)
unfolding fill_file
fill_file-IsOpen sys h op n none a = tt
fill_file-IsOpen sys h op n (some file) a =
    fill_block_size-IsOpen sys h op file n _ a (supported_block_size-IsSupported op.block_size)

fill_receiver-IsOpen :
    (sys : System) (h : Host) (op : OperationData) (n : Net) (o : Option FileHandle)
    → IsAllocator sys.malloc
    → IsOpen n (fill_receiver sys h op n o)
unfolding fill_receiver
fill_receiver-IsOpen sys h op n none a = fill_file-IsOpen sys h op n (sys.fopen op.path true) a
fill_receiver-IsOpen sys h op n (some file) a = tt

-- With an allocator that gives what it is asked for, a transfer that `tftp_fill_transfer_data` lets
-- begin is as the transfer functions take it: the counters are zero, both buffers have the lengths
-- that the fields say, the block size lies between 8 and 65464, and nothing was sent.
pub fill_transfer_data-IsOpen :
    (sys : System) (h : Host) (op : OperationData) (allocated receiver : Bool) (n : Net)
    → IsAllocator sys.malloc
    → IsOpen n (tftp_fill_transfer_data sys h op allocated receiver n)
unfolding tftp_fill_transfer_data
fill_transfer_data-IsOpen sys h op false receiver n a = tt
fill_transfer_data-IsOpen sys h op true true n a =
    fill_receiver-IsOpen sys h op n (sys.fopen op.path false) a
fill_transfer_data-IsOpen sys h op true false n a =
    fill_file-IsOpen sys h op n (sys.fopen op.path false) a
