-- ===== src/Net.antt =====
-- The socket of an operation and the termination flag, as tftp_common.c uses them: `tftp_send_ack`,
-- `tftp_send_error` and CHECK_SIGTERM_DURING_TRANSFER. What the operating system decides is a script:
-- what each poll of `should_terminate` finds, whether each `sendto` succeeds, what each `recvfrom`
-- returns. Where a script has run out, the flag is clear, `sendto` succeeds, and `recvfrom` fails
-- after the socket's timeout.
pub mod Quiet
pub mod Frame
pub mod Sent
use rted_tftp.Base.{
  ℕ, Bool, true, false, List, [], ◌∷◌, ◌++◌, Option, none, some, Bytes, codes, if◌then◌else◌, ◌==◌,
}
use rted_tftp.Protocol.{tftp_error_undefined}
use rted_tftp.Packet.{Endian, htons, ack_packet, error_packet}

-- A `sockaddr_in`: the address and the port field as it stands in memory.
pub record Address : Type 0 where
  pub sin_addr : ℕ
  pub sin_port : ℕ

-- The byte order of the machine and `tftp_common.is_server`.
pub record Host : Type 0 where
  pub endian : Endian
  pub is_server : Bool

-- What one `recvfrom` returns: a datagram with its sender, or a failure, with errno ETIMEDOUT or
-- another one.
pub data Arrival : Type 0 where
  packet : Address → Bytes → Arrival
  timed_out : Arrival
  failed : Arrival

pub record Datagram : Type 0 where
  pub to : Address
  pub bytes : Bytes

-- `peer_address` is the field of the operation data; `sent` is all that went out, in order.
pub record Net : Type 0 where
  pub polls : List Bool
  pub sends : List Bool
  pub inbox : List Arrival
  pub peer_address : Address
  pub sent : List Datagram

-- A read of `should_terminate`.
unfoldable pub poll : Net → Bool × Net
poll n = elim n.polls [ [] ↦ (false, n) | flag ∷ rest ↦ (flag, record n { polls = rest }) ]

unfoldable pub deliver : Net → Bytes → Net
deliver n bytes = record n { sent = n.sent ++ record { to = n.peer_address; bytes = bytes } ∷ [] }

-- `sendto` the peer: a datagram goes out whole or not at all.
unfoldable pub sendto : Net → Bytes → Bool × Net
sendto n bytes = elim n.sends [
  | [] ↦ (true, deliver n bytes)
  | true ∷ rest ↦ (true, deliver (record n { sends = rest }) bytes)
  | false ∷ rest ↦ (false, record n { sends = rest })
]

-- `recvfrom` writes the sender of a datagram over the peer's address.
unfoldable pub recvfrom : Net → Arrival × Net
recvfrom n = elim n.inbox [
  | [] ↦ (failed, n)
  | packet from bytes ∷ rest ↦ (packet from bytes, record n { inbox = rest; peer_address = from })
  | timed_out ∷ rest ↦ (timed_out, record n { inbox = rest })
  | failed ∷ rest ↦ (failed, record n { inbox = rest })
]

-- `tftp_send_ack`
unfoldable pub tftp_send_ack : Host → ℕ → Net → Bool × Net
tftp_send_ack h block_number n = sendto n (ack_packet h.endian block_number)

-- `tftp_send_error`: nothing is sent while the peer's port is still that of the requests.
unfoldable pub tftp_send_error : Host → ℕ → Bytes → Option Bytes → Net → Net
tftp_send_error h error_code error_message error_item n =
    if n.peer_address.sin_port == htons h.endian 69
    then n
    else (sendto n (error_packet h.endian error_code error_message error_item)).1

-- CHECK_SIGTERM_DURING_TRANSFER; with `true` the caller returns false.
unfoldable pub check_sigterm : Host → Net → Bool × Net
check_sigterm h n =
    let (should_terminate, n') = poll n in
    let message =
      if h.is_server
      then codes "Server program terminated"
      else codes "Client program terminated" in
    if should_terminate
    then (true, tftp_send_error h tftp_error_undefined message none n')
    else (false, n')
