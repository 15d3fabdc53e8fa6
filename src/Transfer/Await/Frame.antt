-- ===== src/Transfer/Await/Frame.antt =====
-- Waiting for an acknowledgement sends nothing.
use rted_tftp.Base.{ℕ, zero, suc, ◌≡◌, refl, ◌∙◌, Bool, true, false, Bytes, arith}
use rted_tftp.Protocol.{max_retry_count}
use rted_tftp.Net.{Host, Net, recvfrom}
use rted_tftp.Transfer.Await.{
  Verdict, accepted, refused, ignored, on_incoming, await_loop, tftp_await_acknowledgement,
}

recvfrom-sent : (n : Net) → (recvfrom n).1.sent ≡ n.sent
unfolding recvfrom
recvfrom-sent n = ground arith

judged-sent :
    (rounds : ℕ) (h : Host) (k : ℕ) (n : Net) (v : Verdict)
    → ((buffer : Bytes) → (await_loop rounds h k buffer n).1.sent ≡ n.sent)
    → (elim v as (λ x. Bool × Net) [
      | accepted ↦ (true, n)
      | refused ↦ (false, n)
      | ignored buffer ↦ await_loop rounds h k buffer n
    ]).1.sent
      ≡ n.sent
judged-sent rounds h k n accepted rec = refl
judged-sent rounds h k n refused rec = refl
judged-sent rounds h k n (ignored buffer) rec = rec buffer

await_loop-sent :
    (rounds : ℕ) (h : Host) (k : ℕ) (buffer : Bytes) (n : Net)
    → (await_loop rounds h k buffer n).1.sent ≡ n.sent
unfolding await_loop
await_loop-sent zero h k buffer n = refl
await_loop-sent (suc rounds) h k buffer n =
    judged-sent rounds h k (recvfrom n).1 (on_incoming h k buffer (recvfrom n).0)
      (λ b. await_loop-sent rounds h k b (recvfrom n).1)
    ∙ recvfrom-sent n

pub await_acknowledgement-sent :
    (h : Host) (k : ℕ) (buffer : Bytes) (n : Net)
    → (tftp_await_acknowledgement h k buffer n).1.sent ≡ n.sent
unfolding tftp_await_acknowledgement
await_acknowledgement-sent h k buffer n = await_loop-sent max_retry_count h k buffer n
