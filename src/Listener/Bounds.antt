-- ===== src/Listener/Bounds.antt =====
-- Where one datagram takes the listener past a buffer or a table, and where not.
use rted_tftp.Base.{
  ℕ, zero, suc, ◌<◌, ◌≤◌, ◌≡◌, ◌≢◌, refl, ◌⊎◌, inl, inr, [], ◌∷◌, Option, none, some, length,
  get_elem?, min, Bytes, Bool, true, false, arith, Bool-cases,
}
use rted_tftp.Protocol.{opcode_strings}
use rted_tftp.Packet.{Endian, little, big, ntohs, load16, raw_opcode, overlay}
use rted_tftp.Net.{Address, Host, packet}
use rted_tftp.Request.{Parsed, parsed, overread}
use rted_tftp.Request.Bounds.{server_parse_request_data-within}
use rted_tftp.Slots.Threads.{assign_operation}
use rted_tftp.Listener.{
  Started, Serving, Given, out_of_bounds, create_thread, with_operation, with_slot,
  server_try_create_operation_thread, reject_opcode, is_request, on_opcode, request_buffer,
  prints_past, on_datagram,
}

-- The opcode that the listener reads from a datagram of these bytes.
abbrev pub opcode_read : Host → Bytes → ℕ
opcode_read h b = ntohs h.endian (raw_opcode h.endian (request_buffer b))

create_thread-within : (b : Bool) (l : Serving) (t : Started) → create_thread b l t ≢ out_of_bounds
unfolding create_thread
create_thread-within true l t = λ e. cc
create_thread-within false l t = λ e. cc

with_operation-within :
    (g : Given) (l : Serving) (i : ℕ) (p : Parsed)
    → p ≢ overread
    → with_operation g l i p ≢ out_of_bounds
unfolding with_operation
with_operation-within g l i overread w = absurd (w refl)
with_operation-within g l i (parsed (n, none)) w = λ e. cc
with_operation-within g l i (parsed (n, some op)) w =
    create_thread-within g.thread_starts
      (record l { slots = assign_operation l.slots i g.op_data_ptr g.thread_handle }) _

with_slot-within :
    (h : Host) (g : Given) (b : Bytes) (l : Serving) (r : Option ℕ)
    → length b ≤ 512
    → with_slot h g (request_buffer b) (length b) l r ≢ out_of_bounds
unfolding with_slot
with_slot-within h g b l none short = λ e. cc
with_slot-within h g b l (some i) short =
    with_operation-within g l i _
      (server_parse_request_data-within h g.fresh g.data_socket l.requests.peer_address b short)

-- In the table of names, or past it.
name_found :
    (h : Host) (l : Serving) (opcode : ℕ)
    → ((opcode ≤ 6) × (reject_opcode h l (get_elem? opcode_strings opcode) ≢ out_of_bounds))
      ⊎ ((6 < opcode) × (reject_opcode h l (get_elem? opcode_strings opcode) ≡ out_of_bounds))
unfolding reject_opcode
name_found h l zero = inl (omega arith, λ e. cc)
name_found h l (suc zero) = inl (omega arith, λ e. cc)
name_found h l (suc (suc zero)) = inl (omega arith, λ e. cc)
name_found h l (suc (suc (suc zero))) = inl (omega arith, λ e. cc)
name_found h l (suc (suc (suc (suc zero)))) = inl (omega arith, λ e. cc)
name_found h l (suc (suc (suc (suc (suc zero))))) = inl (omega arith, λ e. cc)
name_found h l (suc (suc (suc (suc (suc (suc zero)))))) = inl (omega arith, λ e. cc)
name_found h l (suc (suc (suc (suc (suc (suc (suc n))))))) = inr (omega arith, refl)

request_small : (opcode : ℕ) → is_request opcode ≡ true → opcode ≤ 6
unfolding is_request
request_small opcode e = ground arith

on_opcode-within :
    (h : Host) (g : Given) (b : Bytes) (l : Serving) (opcode : ℕ)
    → length b ≤ 512
    → ((opcode ≤ 6) × (on_opcode h g (request_buffer b) (length b) l opcode ≢ out_of_bounds))
      ⊎ ((6 < opcode) × (on_opcode h g (request_buffer b) (length b) l opcode ≡ out_of_bounds))
unfolding on_opcode server_try_create_operation_thread
on_opcode-within h g b l opcode short = elim (Bool-cases (is_request opcode)) [
  | inl e ↦ inl (request_small opcode e, rw e (with_slot-within h g b _ _ short))
  | inr e ↦ rw e (name_found h l opcode)
]

zeroed_opcode : (e : Endian) → ntohs e (raw_opcode e (request_buffer [])) ≡ 0
unfolding ntohs load16 overlay
zeroed_opcode little = refl
zeroed_opcode big = refl

-- A datagram takes the listener out of bounds just where it has more than 512 bytes or its opcode is
-- above 6: it prints as many bytes as it has received from offset 2 of the buffer, and looks up the
-- opcode in a table of seven names; and otherwise no datagram, be it a well-formed request or not, makes
-- it read past the request buffer.
pub on_datagram-within :
    (h : Host) (g : Given) (l : Serving) (from : Address) (b : Bytes)
    → ((length b ≤ 512)
        × (opcode_read h b ≤ 6)
        × (on_datagram h g l (packet from b) ≢ out_of_bounds))
      ⊎ (((512 < length b) ⊎ (6 < opcode_read h b))
          × (on_datagram h g l (packet from b) ≡ out_of_bounds))
unfolding on_datagram
on_datagram-within h g l from [] = inl (omega arith, omega (arith, zeroed_opcode h.endian), λ e. cc)
on_datagram-within h g l from (b ∷ bs) = elim (Bool-cases (prints_past (b ∷ bs))) [
  | inl e ↦ inr (inl (ground arith), rw e refl)
  | inr e ↦
      let short : length (b ∷ bs) ≤ 512 = ground arith in
      let whole : min (length (b ∷ bs)) 514 ≡ length (b ∷ bs) = omega arith in
      rw (e, whole)
        (elim (on_opcode-within h g (b ∷ bs) l (opcode_read h (b ∷ bs)) short) [
          | inl (small, f) ↦ inl (short, small, f)
          | inr (big_one, f) ↦ inr (inr big_one, f)
        ])
]
