-- ===== src/Operation/Deletion/Handshake.antt =====
-- The two sides of a deletion together.
use rted_tftp.Base.{
  ℕ, ◌≡◌, refl, sym, ap, ◌∙◌, ◌≤◌, inl, inr, Bool, true, false, List, [], ◌∷◌, ◌++◌, subst, map,
  Option, Bytes, length, ◌==◌, ◌%◌, Bool-cases,
}
use rted_tftp.Protocol.{max_retry_count}
use rted_tftp.Packet.{Endian, ack_packet, htons, error_packet}
use rted_tftp.Net.{
  Address, Host, Net, Arrival, packet, Datagram, deliver, tftp_send_ack, tftp_send_error,
}
use rted_tftp.Net.Quiet.{IsQuiet, sendto-IsQuiet}
use rted_tftp.Operation.{OperationData}
use rted_tftp.Operation.Deletion.{
  FileSystem, finish_deletion, delete_if_found, server_delete_file, confirm_deletion,
  await_deletion,
}
use rted_tftp.Transfer.Await.{tftp_await_acknowledgement}
use rted_tftp.Transfer.Await.Replies.{
  Reply, ack_reply, error_reply, arrival_of, is_answered, received, await_loop_step, on_reply,
  resume, await_acknowledgement-is_answered,
}

-- An acknowledgement that comes first is taken, and what is behind it is left.
await_first :
    (h : Host) (k : ℕ) (e : Endian) (from : Address) (rest : List Arrival) (buffer : Bytes)
    (n : Net)
    → 4 ≤ length buffer
    → (k % 65536 == k) ≡ true
    → n.inbox ≡ arrival_of e from (ack_reply k) ∷ rest
    → (m : Net) × (tftp_await_acknowledgement h k buffer n ≡ (true, m)) × (m.inbox ≡ rest)
unfolding tftp_await_acknowledgement
await_first h k e from rest buffer n l w i =
    let (m, step, left) = received e from n (ack_reply k) rest i in
    let looped = await_loop_step 4 h k buffer n m (arrival_of e from (ack_reply k)) step in
    elim (on_reply h k buffer e from (ack_reply k) l) [
      | inl (t, v) ↦ (m, looped ∙ ap (resume 4 h k m) v, left)
      | inr (f, v) ↦ absurd cc
    ]

-- The datagrams as the other side receives them.
abbrev pub delivered : Address → List Datagram → List Arrival
delivered from sent = map (λ d. packet from d.bytes) sent

-- What the server sends after the first acknowledgement answers the wait for the second one as the
-- deletion ended.
abbrev Answers : Host → Address → Bool × Net → Type 0
Answers h from r =
    (rest : List Reply) × (delivered from r.1.sent
      ≡ map (arrival_of h.endian from) (ack_reply 0 ∷ rest))
    × (is_answered max_retry_count 1 rest ≡ r.0)

-- The server has sent its first acknowledgement, and nothing else.
record IsAcknowledged (h : Host) (n : Net) : Type 0 where
  quiet : IsQuiet n
  only : n.sent ≡ record { to = n.peer_address; bytes = ack_packet h.endian 0 } ∷ []

error-Answers :
    (h : Host) (from : Address) (n : Net) (c : ℕ) (message : Bytes) (item : Option Bytes)
    → IsAcknowledged h n
    → Answers h from (false, tftp_send_error h c message item n)
unfolding tftp_send_error is_answered deliver
error-Answers h from n c message item a =
    elim (Bool-cases (n.peer_address.sin_port == htons h.endian 69)) [
      | inl e ↦ rw e ([], ap (delivered from) a.only, refl)
      | inr e ↦
          let out = sendto-IsQuiet n (error_packet h.endian c message item) a.quiet in
          rw (e, out)
            (
              error_reply c message item ∷ [],
              ap
                  (λ sent. delivered from (
                    sent
                    ++ record { to = n.peer_address; bytes = error_packet h.endian c message item }
                      ∷ []))
                  a.only,
              refl,
            )
    ]

finish-Answers :
    (h : Host) (fs : FileSystem) (from : Address) (n : Net) (removed : Bool)
    → IsAcknowledged h n
    → Answers h from (finish_deletion h fs n removed)
unfolding finish_deletion tftp_send_ack deliver is_answered
finish-Answers h fs from n true a =
    let out = sendto-IsQuiet n (ack_packet h.endian 1) a.quiet in
    (
      ack_reply 1 ∷ [],
      ap (λ r. delivered from r.1.sent) out
          ∙ ap
              (λ sent.
                delivered from
                  (sent ++ record { to = n.peer_address; bytes = ack_packet h.endian 1 } ∷ []))
              a.only,
      refl,
    )
finish-Answers h fs from n false a = error-Answers h from n _ _ _ a

found-Answers :
    (h : Host) (fs : FileSystem) (op : OperationData) (from : Address) (n : Net) (found : Bool)
    → IsAcknowledged h n
    → Answers h from (delete_if_found h fs op n found)
unfolding delete_if_found
found-Answers h fs op from n true a = finish-Answers h fs from n (fs.removes op.path) a
found-Answers h fs op from n false a = error-Answers h from n _ _ _ a

server-Answers :
    (h : Host) (fs : FileSystem) (op : OperationData) (from : Address) (n : Net)
    → IsQuiet n
    → n.sent ≡ []
    → Answers h from (server_delete_file h fs op n)
unfolding server_delete_file tftp_send_ack deliver
server-Answers h fs op from n q s =
    let m = deliver n (ack_packet h.endian 0) in
    let quiet : IsQuiet m = record { no_signal = q.no_signal; no_loss = q.no_loss } in
    let only =
      ap (λ sent. sent ++ record { to = n.peer_address; bytes = ack_packet h.endian 0 } ∷ []) s in
    subst (λ r. Answers h from (delete_if_found h fs op r.1 (fs.opens op.path)))
      (sym (sendto-IsQuiet n (ack_packet h.endian 0) q))
      (found-Answers h fs op from m (fs.opens op.path) record { quiet = quiet; only = only })

-- With a server whose socket is quiet, and a client that receives just what the server sends for the
-- deletion, the client's two waits report success exactly when the server has deleted the file,
-- whatever byte order the hosts have and whatever the client's buffers hold.
pub deletion_agreed :
    (server client : Host) (fs : FileSystem) (op : OperationData) (from : Address) (n m : Net)
    (buffer buffer' : Bytes)
    → IsQuiet n
    → n.sent ≡ []
    → 4 ≤ length buffer
    → 4 ≤ length buffer'
    → m.inbox ≡ delivered from (server_delete_file server fs op n).1.sent
    → (await_deletion client buffer buffer' m).0 ≡ (server_delete_file server fs op n).0
unfolding await_deletion confirm_deletion
deletion_agreed server client fs op from n m buffer buffer' q s l l' i =
    let (rest, sent, outcome) = server-Answers server fs op from n q s in
    let behind = map (arrival_of server.endian from) rest in
    let (k, first, left) =
      await_first client 0 server.endian from behind buffer m l refl (i ∙ sent) in
    ap (λ r. (confirm_deletion client buffer' r).0) first
    ∙ await_acknowledgement-is_answered client 1 server.endian from rest buffer' k l' left
    ∙ outcome
