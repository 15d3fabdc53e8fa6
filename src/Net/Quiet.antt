-- ===== src/Net/Quiet.antt =====
-- The socket operations when nothing interferes: no termination signal, and every `sendto` succeeds.
use rted_tftp.Base.{true, false, List, [], ◌∷◌, ◌≡◌, arith, Bytes}
use rted_tftp.Net.{
  Address, Host, Arrival, packet, Net, poll, deliver, sendto, recvfrom, check_sigterm,
}

-- No signal arrives, and every `sendto` succeeds.
pub record IsQuiet (n : Net) : Type 0 where
  pub no_signal : n.polls ≡ []
  pub no_loss : n.sends ≡ []

pub check_sigterm-IsQuiet : (h : Host) (n : Net) → IsQuiet n → check_sigterm h n ≡ (false, n)
unfolding check_sigterm poll
check_sigterm-IsQuiet h n q = ground (arith, q.no_signal)

pub sendto-IsQuiet : (n : Net) (b : Bytes) → IsQuiet n → sendto n b ≡ (true, deliver n b)
unfolding sendto
sendto-IsQuiet n b q = ground (arith, q.no_loss)

pub recvfrom_packet :
    (n : Net) (from : Address) (b : Bytes) (rest : List Arrival)
    → n.inbox ≡ packet from b ∷ rest
    → recvfrom n ≡ (packet from b, record n { inbox = rest; peer_address = from })
unfolding recvfrom
recvfrom_packet n from b rest e = ground (arith, e)
