-- ===== src/Task/Upload.antt =====
-- What an upload leaves in the server's storage.
use rted_tftp.Base.{ℕ, ◌≤◌, ◌≡◌, refl, Bool, true, false, [], Option, none, some, Bytes}
use rted_tftp.Net.{Host, Net}
use rted_tftp.Transfer.{FileHandle}
use rted_tftp.Transfer.Receive.Safety.{PrintsPast}
use rted_tftp.Operation.{OperationData, supported_block_size}
use rted_tftp.Operation.Fill.{
  System, Filled, ready, unready, fill_buffers, fill_block_size, fill_file, fill_receiver,
  transfer_data, tftp_fill_transfer_data,
}
use rted_tftp.Task.{
  untouched, received, removed, TaskEnd, task_ended, task_overread, task_crashed, task_starved,
}

-- A file that was opened to be written: it is empty, and the disk has room.
abbrev pub IsEmpty : ℕ → FileHandle → Type 0
IsEmpty size file = (file.written ≡ []) × (size ≤ file.room)

abbrev pub Opened : ℕ → ℕ → Filled → Type 0
Opened size bs (ready op s) = IsEmpty size s.tx.file × (s.block_size ≡ bs)
Opened size bs (unready file n) = Unit {0}

fill_buffers-Opened :
    (size bs : ℕ) (sys : System) (h : Host) (op : OperationData) (file : FileHandle) (n : Net)
    (data_cells response_cells : Option Bytes)
    → IsEmpty size file
    → Opened size bs (fill_buffers sys h op bs file n data_cells response_cells)
unfolding fill_buffers transfer_data
fill_buffers-Opened size bs sys h op file n (some d) (some r) e = (e, refl)
fill_buffers-Opened size bs sys h op file n none r e = tt
fill_buffers-Opened size bs sys h op file n (some d) none e = tt

fill_file-Opened :
    (size bs : ℕ) (sys : System) (h : Host) (op : OperationData) (n : Net) (o : Option FileHandle)
    → supported_block_size op.block_size ≡ some bs
    → ((file : FileHandle) → o ≡ some file → IsEmpty size file)
    → Opened size bs (fill_file sys h op n o)
unfolding fill_file fill_block_size
fill_file-Opened size bs sys h op n none b e = tt
fill_file-Opened size bs sys h op n (some file) b e =
    rw b (fill_buffers-Opened size bs sys h op file n _ _ (e file refl))

fill_receiver-Opened :
    (size bs : ℕ) (sys : System) (h : Host) (op : OperationData) (n : Net) (o : Option FileHandle)
    → supported_block_size op.block_size ≡ some bs
    → ((file : FileHandle) → sys.fopen op.path true ≡ some file → IsEmpty size file)
    → Opened size bs (fill_receiver sys h op n o)
unfolding fill_receiver
fill_receiver-Opened size bs sys h op n (some file) b e = tt
fill_receiver-Opened size bs sys h op n none b e =
    fill_file-Opened size bs sys h op n (sys.fopen op.path true) b e

pub receiver-Opened :
    (size bs : ℕ) (sys : System) (h : Host) (op : OperationData) (n : Net)
    → supported_block_size op.block_size ≡ some bs
    → ((file : FileHandle) → sys.fopen op.path true ≡ some file → IsEmpty size file)
    → Opened size bs (tftp_fill_transfer_data sys h op true true n)
unfolding tftp_fill_transfer_data
receiver-Opened size bs sys h op n b e =
    fill_receiver-Opened size bs sys h op n (sys.fopen op.path false) b e

-- The thread ends, and a file that it has received is the client's, whole; or it prints a message
-- without a terminator, or its transfer data was not allocated.
abbrev pub KeepsWhole : Host → Bool → Bytes → TaskEnd → Type 0
KeepsWhole h allocated file (task_ended (untouched f) n) = Unit {0}
KeepsWhole h allocated file (task_ended (received f) n) = f.written ≡ file
KeepsWhole h allocated file (task_ended removed n) = Unit {0}
KeepsWhole h allocated file (task_overread t) = PrintsPast h t
KeepsWhole h allocated file task_crashed = allocated ≡ false
KeepsWhole h allocated file task_starved = ⊥
