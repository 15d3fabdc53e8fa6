-- ===== src/Lib.antt =====
-- Verification of stftpu, a TFTP client and server (tftp_common.c, server.c, client.c, main.c).
--
-- The program. The server's listener accepts a request, reserves one of five connection slots for it
-- and starts a thread, which sends or receives a file, or deletes one. The client does the same
-- operation from its side. Both share the two transfer functions of tftp_common.c, which work on an
-- open file and a UDP socket, block by block.
--
-- The modules and the code that they model:
--   Protocol   the constants of tftp_common.h, server.h and of `tftp_common`
--   Packet     `Packet_t` and the packets that tftp_common.c builds, on hosts of either byte order
--   Net        the socket of an operation: `tftp_send_ack`, `tftp_send_error` and the macro
--              CHECK_SIGTERM_DURING_TRANSFER
--   Transfer   `TransferData_t`; Transfer/Transmit is `tftp_transmit_file`, Transfer/Receive is
--              `tftp_receive_file`, Transfer/Blocks the file as both sides cut it, and
--              Transfer/Delivery the two sides together, Transfer/Safety the two sides with an
--              unreliable network between; Transfer/Await is `tftp_await_acknowledgement`
--   CLibrary   the string functions of the C library that the code calls
--   Operation  `OperationData_t` and `tftp_init_operation_data`; Operation/Fill is
--              `tftp_fill_transfer_data`, Operation/Checks what both guarantee, Operation/Deletion
--              `server_delete_file` and the client's part of a deletion
--   Request    `send_request_packet` and `server_parse_request_data`; Request/RoundTrip and
--              Request/Deletion the two together, Request/Bounds what the second one reads
--   Slots      the slot table of server.h and server.c; Slots/Threads the listener and the threads as
--              interleaved steps on it
--   Listener   `server_try_create_operation_thread`, the rounds of `server_listener_loop` and the
--              server as a step relation; Listener/Refinement relates it to the steps of
--              Slots/Threads, Listener/Loop runs it on a sequence of events
--   Server     `server_start` with all that it sets up and takes down
--   Socket     `tftp_init_bound_data_socket` and `random_range` of common.c
--   Client     `client_start_operation`
--   Task       `server_task_start`
--   Exchange   a whole operation: the client's request, what the server makes of it, the server's
--              thread and the client, each receiving what the other one sends
--   Main       `get_selection_from_args`, `main`, and `parse_address` of networking_common.c
--   Tests      runs of the models, and the theorems at concrete inputs
--
-- How the code is read. A structure is a record, and a function that changes it returns the new one.
-- Memory is a list of cells, each read modulo 256. The byte order of the host is a parameter, since
-- 16-bit fields are read and written in host order. Counters keep their width: the block number wraps
-- at 65536 and the retry counter at 256. What the operating system decides is a script: the outcome
-- of each `sendto` and `recvfrom`, and what each poll of `should_terminate` sees. After the last
-- arrival `recvfrom` fails. A disk is the bytes still to be read, those written, and the room left; a
-- write reaches it at once.
--
-- Fuel. The outer loop of `tftp_transmit_file` takes as many rounds as the file has bytes, and two
-- more; its inner loop takes one more than the retry limit; the loop of `tftp_receive_file` takes as
-- many rounds as there are arrivals, and six more. The wait for an acknowledgement counts its
-- rounds. The totality theorems show that this is enough.
--
-- Concurrency. The slot table is under a mutex from the first access to the last, so an acquisition
-- or a release is one step. Slots/Threads takes the listener's work on a request apart into its
-- acquisition and what follows; Server and Listener interleave whole rounds with the ends of threads.
--
-- Not modelled: console output, except where the listener prints a datagram and the receiver an error
-- message, which may read past their buffers (the transmitter and the waits for acknowledgements print
-- error messages in the same way); clocks and the seeding of `rand`; the signal handler (each poll of
-- its flag is part of a script); what a failing `malloc` does to `tftp_init_operation_data`, to
-- `server_init_data` and to a thread's arguments, which are used without a test; names of 65535 bytes
-- or more, which overflow the memory of their operation data; the closing of an operation's socket and
-- files and the freeing of its memory but for what a null pointer there does; and the menu scripts.
-- The arrivals of a run are finite: endless streams of datagrams are outside of the model.
-- What `pthread_join` does is a parameter.
mod Base
pub mod Protocol
pub mod Packet
pub mod Slots
pub mod Listener
pub mod Client
pub mod Task
pub mod Main
pub mod Net
pub mod Transfer
pub mod Exchange
pub mod Socket
pub mod Server
pub mod CLibrary
pub mod Operation
pub mod Request
mod Tests
