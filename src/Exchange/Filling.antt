-- ===== src/Exchange/Filling.antt =====
-- Where `tftp_fill_transfer_data` succeeds, what it prepares, and the requests before it.
use rted_tftp.Base.{ℕ, ◌+◌, ◌≤◌, ◌≡◌, refl, true, false, Option, none, some, length, Bytes, arith}
use rted_tftp.Protocol.{sizeof_packet, tftp_blksize_min, tftp_blksize_max}
use rted_tftp.Net.{Host, Net}
use rted_tftp.Transfer.{FileHandle, Session, IsReady}
use rted_tftp.Operation.{OperationData, supported_block_size}
use rted_tftp.Operation.Fill.{
  System, Filled, ready, transfer_data, fill_buffers, fill_block_size, fill_file, fill_receiver,
  tftp_fill_transfer_data,
}

-- `malloc` always gives what it is asked for.
abbrev pub Allocates : (ℕ → Option Bytes) → Type 0
Allocates malloc = (n : ℕ) → (m : Bytes) × (malloc n ≡ some m) × (length m ≡ n)

-- A transfer can begin on the file.
abbrev pub Prepares : ℕ → FileHandle → Net → Filled → Type 0
Prepares bs file n filled =
    (op : OperationData) × (s : Session) × (filled ≡ ready op s)
    × IsReady bs s
    × (s.tx.file ≡ file)
    × (s.net ≡ n)

pub supported_in_range :
    (bs : ℕ) → tftp_blksize_min ≤ bs → bs ≤ tftp_blksize_max → supported_block_size bs ≡ some bs
unfolding supported_block_size
supported_in_range bs lo hi = ground arith

module _ (sys : System) (h : Host) (op : OperationData) (n : Net) (bs : ℕ) (file : FileHandle)
    (memory : Allocates sys.malloc) (size : supported_block_size op.block_size ≡ some bs) where
  fill_file-Prepares : Prepares bs file n (fill_file sys h op n (some file))
  unfolding fill_file fill_block_size fill_buffers transfer_data
  fill_file-Prepares =
      let (d, gives_d, sized_d) = memory (sizeof_packet + bs) in
      let (r, gives_r, sized_r) = memory (sizeof_packet + 32) in
      rw (size, gives_d, gives_r)
        (
          record op { block_size = bs },
          record { block_size = bs; tx = transfer_data bs file d r; net = n },
          refl,
          record {
            size = refl;
            max_size = refl;
            response_max = refl;
            number = refl;
            counter = refl;
            data_buffer = sized_d;
            response_buffer = sized_r;
          },
          refl,
          refl,
        )

  pub fill_sender-Prepares :
      sys.fopen op.path false ≡ some file
      → Prepares bs file n (tftp_fill_transfer_data sys h op true false n)
  unfolding tftp_fill_transfer_data
  fill_sender-Prepares e = rw e fill_file-Prepares

  pub fill_receiver-Prepares :
      sys.fopen op.path false ≡ none
      → sys.fopen op.path true ≡ some file
      → Prepares bs file n (tftp_fill_transfer_data sys h op true true n)
  unfolding tftp_fill_transfer_data fill_receiver
  fill_receiver-Prepares absent e = rw (absent, e) fill_file-Prepares
