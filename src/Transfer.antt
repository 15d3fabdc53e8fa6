-- ===== src/Transfer.antt =====
-- tftp_common.h: the data of a transfer, as `tftp_transmit_file` and `tftp_receive_file` use it. The
-- clock and the console are left out.
pub mod Transmit
pub mod Receive
pub mod Blocks
pub mod Delivery
pub mod Await
pub mod Safety
use rted_tftp.Base.{ℕ, ◌+◌, ◌≡◌, Bool, Bytes, length}
use rted_tftp.Protocol.{sizeof_packet}
use rted_tftp.Net.{Net}

-- An open file: what is still to be read, whether reading ends in an error instead of the end of the
-- file, what has been written, and how many more bytes the disk takes.
pub record FileHandle : Type 0 where
  pub unread : Bytes
  pub read_fails : Bool
  pub written : Bytes
  pub room : ℕ

-- TransferData_t
pub record TransferData : Type 0 where
  pub resend_counter : ℕ
  pub response_packet_max_size : ℕ
  pub data_packet_max_size : ℕ
  pub current_block_number : ℕ
  pub bytes_received : ℕ
  pub bytes_sent : ℕ
  pub latest_file_bytes_read : ℕ
  pub total_file_bytes_transmitted : ℕ
  pub file : FileHandle
  pub response_packet : Bytes
  pub data_packet : Bytes

-- What a transfer function works on: `op_data` (its block size; its socket and peer are in `net`)
-- and `tx_data`.
pub record Session : Type 0 where
  pub block_size : ℕ
  pub tx : TransferData
  pub net : Net

-- A transfer that has not begun: the counters are zero, and the two buffers are as long as the
-- fields say, whatever they hold.
pub record IsReady (bs : ℕ) (s : Session) : Type 0 where
  pub size : s.block_size ≡ bs
  pub max_size : s.tx.data_packet_max_size ≡ sizeof_packet + bs
  pub response_max : s.tx.response_packet_max_size ≡ sizeof_packet + 32
  pub number : s.tx.current_block_number ≡ 0
  pub counter : s.tx.resend_counter ≡ 0
  pub data_buffer : length s.tx.data_packet ≡ sizeof_packet + bs
  pub response_buffer : length s.tx.response_packet ≡ sizeof_packet + 32
