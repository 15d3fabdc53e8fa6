-- ===== src/Net/Frame.antt =====
-- What goes out leaves what comes in alone.
use rted_tftp.Base.{ℕ, ◌≡◌, refl, ◌∙◌, inl, inr, Option, arith, Bytes, ◌==◌, Bool-cases}
use rted_tftp.Net.{Host, Net, poll, deliver, sendto, tftp_send_ack, tftp_send_error, check_sigterm}
use rted_tftp.Packet.{htons}

pub sendto-inbox : (n : Net) (b : Bytes) → (sendto n b).1.inbox ≡ n.inbox
unfolding sendto deliver
sendto-inbox n b = ground arith

pub send_ack-inbox : (h : Host) (k : ℕ) (n : Net) → (tftp_send_ack h k n).1.inbox ≡ n.inbox
unfolding tftp_send_ack
send_ack-inbox h k n = sendto-inbox n _

send_error-inbox :
    (h : Host) (c : ℕ) (m : Bytes) (i : Option Bytes) (n : Net)
    → (tftp_send_error h c m i n).inbox ≡ n.inbox
unfolding tftp_send_error
send_error-inbox h c m i n = elim (Bool-cases (n.peer_address.sin_port == htons h.endian 69)) [
  | inl e ↦ rw e refl
  | inr e ↦ rw e (sendto-inbox n _)
]

poll-inbox : (n : Net) → (poll n).1.inbox ≡ n.inbox
unfolding poll
poll-inbox n = ground arith

pub check_sigterm-inbox : (h : Host) (n : Net) → (check_sigterm h n).1.inbox ≡ n.inbox
unfolding check_sigterm
check_sigterm-inbox h n = elim (Bool-cases (poll n).0) [
  | inl e ↦ rw e (send_error-inbox h _ _ _ (poll n).1 ∙ poll-inbox n)
  | inr e ↦ rw e (poll-inbox n)
]
