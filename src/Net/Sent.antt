-- ===== src/Net/Sent.antt =====
-- What stands in the log of datagrams after each operation of the socket.
use rted_tftp.Base.{
  ℕ, ◌≡◌, sym, ◌⊎◌, inl, inr, subst, [], ◌∷◌, ◌++◌, Option, Bytes, ◌==◌, arith, Bool-cases, All,
  All-append,
}
use rted_tftp.Packet.{Endian, htons, error_packet}
use rted_tftp.Net.{Host, Net, poll, deliver, sendto, recvfrom, tftp_send_error, check_sigterm}

-- A `sendto` adds its datagram to the log, or nothing.
sendto-sent :
    (n : Net) (b : Bytes)
    → ((sendto n b).1.sent ≡ n.sent)
      ⊎ ((sendto n b).1.sent ≡ n.sent ++ record { to = n.peer_address; bytes = b } ∷ [])
unfolding sendto deliver
sendto-sent n b = ground arith

poll-sent : (n : Net) → (poll n).1.sent ≡ n.sent
unfolding poll
poll-sent n = ground arith

recvfrom-sent : (n : Net) → (recvfrom n).1.sent ≡ n.sent
unfolding recvfrom
recvfrom-sent n = ground arith

-- Everything that was sent meets a predicate.
abbrev pub AllSent : (Bytes → Type 0) → Net → Type 0
AllSent P n = All (λ d. P d.bytes) n.sent

module _ (P : Bytes → Type 0) where
  pub same-AllSent : (n m : Net) → m.sent ≡ n.sent → AllSent P n → AllSent P m
  same-AllSent n m e = subst (All (λ d. P d.bytes)) (sym e)

  pub sendto-AllSent : (n : Net) (b : Bytes) → P b → AllSent P n → AllSent P (sendto n b).1
  sendto-AllSent n b p a = elim (sendto-sent n b) [
    | inl e ↦ subst (All (λ d. P d.bytes)) (sym e) a
    | inr e ↦
        subst (All (λ d. P d.bytes)) (sym e)
          (All-append (λ d. P d.bytes) n.sent (record { to = n.peer_address; bytes = b }) a p)
  ]

  pub recvfrom-AllSent : (n : Net) → AllSent P n → AllSent P (recvfrom n).1
  recvfrom-AllSent n = same-AllSent n (recvfrom n).1 (recvfrom-sent n)

  module _
      (errors : (e : Endian) (c : ℕ) (message : Bytes) (item : Option Bytes)
        → P (error_packet e c message item)) where
    pub send_error-AllSent :
        (h : Host) (c : ℕ) (m : Bytes) (i : Option Bytes) (n : Net)
        → AllSent P n
        → AllSent P (tftp_send_error h c m i n)
    unfolding tftp_send_error
    send_error-AllSent h c m i n a =
        elim (Bool-cases (n.peer_address.sin_port == htons h.endian 69)) [
          | inl e ↦ rw e a
          | inr e ↦ rw e (sendto-AllSent n _ (errors h.endian c m i) a)
        ]

    pub check_sigterm-AllSent : (h : Host) (n : Net) → AllSent P n → AllSent P (check_sigterm h n).1
    unfolding check_sigterm
    check_sigterm-AllSent h n a = elim (Bool-cases (poll n).0) [
      | inl e ↦
          rw e (send_error-AllSent h _ _ _ (poll n).1 (same-AllSent n (poll n).1 (poll-sent n) a))
      | inr e ↦ rw e (same-AllSent n (poll n).1 (poll-sent n) a)
    ]
