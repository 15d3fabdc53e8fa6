-- ===== src/Transfer/Await/Replies.antt =====
-- The wait for an acknowledgement against what peers answer.
use rted_tftp.Base.{
  ℕ, zero, suc, Bool, true, false, List, [], ◌∷◌, ◌++◌, ◌/◌, ◌%◌, ◌≡◌, refl, ap, ◌∙◌, ◌≤◌, ◌⊎◌, inl,
  inr, map, Option, Bytes, length, drop, if◌then◌else◌, ◌==◌, arith, Bool-cases, ◌&&◌,
}
use rted_tftp.Protocol.{tftp_ack, tftp_error, tftp_data, max_retry_count}
use rted_tftp.Packet.{Endian, ack_packet, error_packet, data_packet, overlay}
use rted_tftp.Packet.Layout.{
  network16, ack_packet_lem, error_packet_lem, data_packet_lem, overlay_header, length-overlay,
  ntohs-header,
}
use rted_tftp.Net.{Address, Host, Net, Arrival, packet, timed_out, failed, recvfrom}
use rted_tftp.Transfer.Await.{
  Verdict, accepted, refused, ignored, judge, on_incoming, await_loop, tftp_await_acknowledgement,
}

-- What may come in: packets that a peer on a host of any byte order builds, or nothing.
pub data Reply : Type 0 where
  ack_reply : ℕ → Reply
  error_reply : ℕ → Bytes → Option Bytes → Reply
  data_reply : ℕ → Bytes → Reply
  silence broken : Reply

abbrev pub arrival_of : Endian → Address → Reply → Arrival
arrival_of e from (ack_reply k) = packet from (ack_packet e k)
arrival_of e from (error_reply c message item) = packet from (error_packet e c message item)
arrival_of e from (data_reply k payload) = packet from (data_packet e k payload)
arrival_of e from silence = timed_out
arrival_of e from broken = failed

-- Whether the acknowledgement of a block comes among the first replies, and before an error.
unfoldable pub is_answered : ℕ → ℕ → List Reply → Bool
is_answered zero k replies = false
is_answered (suc rounds) k [] = false
is_answered (suc rounds) k (ack_reply j ∷ replies) =
    let rest = is_answered rounds k replies in if j % 65536 == k then true else rest
is_answered (suc rounds) k (error_reply c message item ∷ replies) = false
is_answered (suc rounds) k (data_reply j payload ∷ replies) = is_answered rounds k replies
is_answered (suc rounds) k (silence ∷ replies) = is_answered rounds k replies
is_answered (suc rounds) k (broken ∷ replies) = is_answered rounds k replies

judge_header :
    (h : Host) (k a b : ℕ) (buffer rest : Bytes)
    → 4 ≤ length buffer
    → judge h k (overlay buffer (network16 a ++ network16 b ++ rest)) ≡ (
        if a % 65536 == tftp_ack && b % 65536 == k
        then accepted
        else if a % 65536 == tftp_error
        then refused
        else ignored (overlay buffer (network16 a ++ network16 b ++ rest)))
unfolding judge
judge_header h k a b buffer rest l =
    let e = overlay_header buffer (a / 256 % 256) (a % 256) (b / 256 % 256) (b % 256) rest l in
    let header = ntohs-header h.endian a b (overlay (drop 4 buffer) rest) in
    rw (e, header.0, header.1) refl

-- The buffer keeps its length.
abbrev pub Ignores : Bytes → Verdict → Type 0
Ignores buffer accepted = ⊥
Ignores buffer refused = ⊥
Ignores buffer (ignored m) = length m ≡ length buffer

kept : (buffer bytes : Bytes) → Ignores buffer (ignored (overlay buffer bytes))
kept buffer bytes = length-overlay buffer bytes

-- The verdict on a reply, by what the reply is.
abbrev pub VerdictOn : ℕ → Bytes → Reply → Verdict → Type 0
VerdictOn k buffer (ack_reply j) v =
    ((j % 65536 == k) ≡ true) × (v ≡ accepted) ⊎ ((j % 65536 == k) ≡ false) × Ignores buffer v
VerdictOn k buffer (error_reply c message item) v = v ≡ refused
VerdictOn k buffer (data_reply j payload) v = Ignores buffer v
VerdictOn k buffer silence v = Ignores buffer v
VerdictOn k buffer broken v = Ignores buffer v

pub on_reply :
    (h : Host) (k : ℕ) (buffer : Bytes) (e : Endian) (from : Address) (r : Reply)
    → 4 ≤ length buffer
    → VerdictOn k buffer r (on_incoming h k buffer (arrival_of e from r))
unfolding on_incoming
on_reply h k buffer e from (ack_reply j) l =
    rw (ack_packet_lem e j, judge_header h k tftp_ack j buffer [] l)
      (elim (Bool-cases (j % 65536 == k)) [
        | inl t ↦ inl (t, rw t refl)
        | inr f ↦ inr (f, rw f (kept buffer _))
      ])
on_reply h k buffer e from (error_reply c message item) l =
    rw (error_packet_lem e c message item, judge_header h k tftp_error c buffer _ l) refl
on_reply h k buffer e from (data_reply j payload) l =
    rw (data_packet_lem e j payload, judge_header h k tftp_data j buffer payload l) (kept buffer _)
on_reply h k buffer e from silence l = refl
on_reply h k buffer e from broken l = refl

abbrev pub resume : ℕ → Host → ℕ → Net → Verdict → Bool × Net
resume rounds h k n accepted = (true, n)
resume rounds h k n refused = (false, n)
resume rounds h k n (ignored buffer) = await_loop rounds h k buffer n

resumed :
    (rounds : ℕ) (h : Host) (k : ℕ) (buffer : Bytes) (n : Net) (answer : Bool) (v : Verdict)
    → Ignores buffer v
    → ((b : Bytes) → length b ≡ length buffer → (await_loop rounds h k b n).0 ≡ answer)
    → (resume rounds h k n v).0 ≡ answer
resumed rounds h k buffer n answer accepted i rec = absurd i
resumed rounds h k buffer n answer refused i rec = absurd i
resumed rounds h k buffer n answer (ignored b) i rec = rec b i

after_reply :
    (rounds : ℕ) (h : Host) (k : ℕ) (buffer : Bytes) (n : Net) (r : Reply) (replies : List Reply)
    (v : Verdict)
    → VerdictOn k buffer r v
    → ((b : Bytes)
        → length b ≡ length buffer
        → (await_loop rounds h k b n).0 ≡ is_answered rounds k replies)
    → (resume rounds h k n v).0 ≡ is_answered (suc rounds) k (r ∷ replies)
unfolding is_answered
after_reply rounds h k buffer n (ack_reply j) replies v (inl (t, e)) rec = rw (t, e) refl
after_reply rounds h k buffer n (ack_reply j) replies v (inr (f, i)) rec =
    rw f (resumed rounds h k buffer n _ v i rec)
after_reply rounds h k buffer n (error_reply c m i) replies v e rec = rw e refl
after_reply rounds h k buffer n (data_reply j p) replies v i rec =
    resumed rounds h k buffer n _ v i rec
after_reply rounds h k buffer n silence replies v i rec = resumed rounds h k buffer n _ v i rec
after_reply rounds h k buffer n broken replies v i rec = resumed rounds h k buffer n _ v i rec

-- The socket after one `recvfrom` that brings a reply.
pub received :
    (e : Endian) (from : Address) (n : Net) (r : Reply) (rest : List Arrival)
    → n.inbox ≡ arrival_of e from r ∷ rest
    → (m : Net) × (recvfrom n ≡ (arrival_of e from r, m)) × (m.inbox ≡ rest)
unfolding recvfrom
received e from n (ack_reply j) rest q =
    (record n { inbox = rest; peer_address = from }, rw (q, recvfrom) refl, refl)
received e from n (error_reply c m i) rest q =
    (record n { inbox = rest; peer_address = from }, rw (q, recvfrom) refl, refl)
received e from n (data_reply j p) rest q =
    (record n { inbox = rest; peer_address = from }, rw (q, recvfrom) refl, refl)
received e from n silence rest q = (record n { inbox = rest }, rw (q, recvfrom) refl, refl)
received e from n broken rest q = (record n { inbox = rest }, rw (q, recvfrom) refl, refl)

resume_lem :
    (rounds : ℕ) (h : Host) (k : ℕ) (m : Net) (v : Verdict)
    → elim v [ accepted ↦ (true, m) | refused ↦ (false, m) | ignored b ↦ await_loop rounds h k b m ]
      ≡ resume rounds h k m v
resume_lem rounds h k m accepted = refl
resume_lem rounds h k m refused = refl
resume_lem rounds h k m (ignored b) = refl

pub await_loop_step :
    (rounds : ℕ) (h : Host) (k : ℕ) (buffer : Bytes) (n m : Net) (a : Arrival)
    → recvfrom n ≡ (a, m)
    → await_loop (suc rounds) h k buffer n ≡ resume rounds h k m (on_incoming h k buffer a)
unfolding await_loop
await_loop_step rounds h k buffer n m a e =
    resume_lem rounds h k (recvfrom n).1 (on_incoming h k buffer (recvfrom n).0)
    ∙ ap (λ p. resume rounds h k p.1 (on_incoming h k buffer p.0)) e

recvfrom_nothing : (n : Net) → n.inbox ≡ [] → recvfrom n ≡ (failed, n)
unfolding recvfrom
recvfrom_nothing n e = ground (arith, e)

await_loop_silence :
    (rounds : ℕ) (h : Host) (k : ℕ) (buffer : Bytes) (n : Net)
    → n.inbox ≡ []
    → (await_loop rounds h k buffer n).0 ≡ false
unfolding await_loop on_incoming
await_loop_silence zero h k buffer n e = refl
await_loop_silence (suc rounds) h k buffer n e =
    let step = await_loop_step rounds h k buffer n n failed (recvfrom_nothing n e) in
    rw step (await_loop_silence rounds h k buffer n e)

await_loop-is_answered :
    (rounds : ℕ) (h : Host) (k : ℕ) (e : Endian) (from : Address) (replies : List Reply)
    (buffer : Bytes) (n : Net)
    → 4 ≤ length buffer
    → n.inbox ≡ map (arrival_of e from) replies
    → (await_loop rounds h k buffer n).0 ≡ is_answered rounds k replies
unfolding await_loop is_answered
await_loop-is_answered zero h k e from replies buffer n l i = refl
await_loop-is_answered (suc rounds) h k e from [] buffer n l i =
    await_loop_silence (suc rounds) h k buffer n i
await_loop-is_answered (suc rounds) h k e from (r ∷ replies) buffer n l i =
    let (m, step, rest) = received e from n r (map (arrival_of e from) replies) i in
    rw (await_loop_step rounds h k buffer n m (arrival_of e from r) step) (
      after_reply rounds h k buffer m r replies _ (on_reply h k buffer e from r l)
        λ b lb. await_loop-is_answered rounds h k e from replies b m (omega arith) rest)

-- With a buffer of at least four bytes, whatever it holds, `tftp_await_acknowledgement` returns true
-- just when the acknowledgement of the block comes among the first five replies and no error packet
-- before it; the replies may come from a host of any byte order, and may be missing.
pub await_acknowledgement-is_answered :
    (h : Host) (k : ℕ) (e : Endian) (from : Address) (replies : List Reply) (buffer : Bytes)
    (n : Net)
    → 4 ≤ length buffer
    → n.inbox ≡ map (arrival_of e from) replies
    → (tftp_await_acknowledgement h k buffer n).0 ≡ is_answered max_retry_count k replies
unfolding tftp_await_acknowledgement
await_acknowledgement-is_answered h k e from replies buffer n l i =
    await_loop-is_answered max_retry_count h k e from replies buffer n l i
