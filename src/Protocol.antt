-- ===== src/Protocol.antt =====
-- The constants of tftp_common.h, tftp_common.c and server.h: opcodes, error codes, block sizes, limits,
-- and the tables of strings in `tftp_common`.
use rted_tftp.Base.{ℕ, ◌+◌, List, [], ◌∷◌, Bytes, codes}

abbrev pub tftp_none : ℕ
tftp_none = 0

abbrev pub tftp_rrq : ℕ
tftp_rrq = 1

abbrev pub tftp_wrq : ℕ
tftp_wrq = 2

abbrev pub tftp_data : ℕ
tftp_data = 3

abbrev pub tftp_ack : ℕ
tftp_ack = 4

abbrev pub tftp_error : ℕ
tftp_error = 5

abbrev pub tftp_drq : ℕ
tftp_drq = 6

abbrev pub tftp_error_undefined : ℕ
tftp_error_undefined = 0

abbrev pub tftp_error_file_not_found : ℕ
tftp_error_file_not_found = 1

abbrev pub tftp_error_out_of_space : ℕ
tftp_error_out_of_space = 3

abbrev pub tftp_error_illegal_operation : ℕ
tftp_error_illegal_operation = 4

abbrev pub tftp_error_file_exists : ℕ
tftp_error_file_exists = 6

abbrev pub tftp_blksize_min : ℕ
tftp_blksize_min = 8

abbrev pub tftp_blksize_default : ℕ
tftp_blksize_default = 512

abbrev pub tftp_blksize_max : ℕ
tftp_blksize_max = 65464

abbrev pub tftp_filename_max : ℕ
tftp_filename_max = 255

abbrev pub tftp_error_message_max_length : ℕ
tftp_error_message_max_length = 128

abbrev pub max_retry_count : ℕ
max_retry_count = 5

abbrev pub server_max_connections : ℕ
server_max_connections = 5

-- `sizeof(Packet_t)`: the union is as long as its members of two 16-bit fields.
abbrev pub sizeof_packet : ℕ
sizeof_packet = 4

abbrev pub tftp_response_packet_max_size : ℕ
tftp_response_packet_max_size = sizeof_packet + tftp_error_message_max_length

abbrev pub transfer_mode_strings : List Bytes
transfer_mode_strings = codes "octet" ∷ codes "netascii" ∷ codes "mail" ∷ []

abbrev pub opcode_strings : List Bytes
opcode_strings =
    codes "NONE"
    ∷ codes "RRQ"
    ∷ codes "WRQ"
    ∷ codes "DATA"
    ∷ codes "ACK"
    ∷ codes "ERROR"
    ∷ codes "DRQ"
    ∷ []

abbrev pub tftp_blksize_string : Bytes
tftp_blksize_string = codes "blksize"

abbrev pub server_storage_path : Bytes
server_storage_path = codes "storage/"
