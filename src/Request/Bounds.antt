-- ===== src/Request/Bounds.antt =====
-- A datagram that leaves two cells of the request buffer free is parsed within the buffer.
pub mod Cells
use rted_tftp.Base.{
  ℕ, zero, suc, ◌+◌, ◌-◌, ◌<◌, ◌≤◌, ◌≡◌, ◌≢◌, refl, sym, ap, ◌∙◌, ◌⊎◌, inl, inr, subst, Bool, true,
  false, [], ◌∷◌, ◌++◌, Option, none, some, length, drop, Bytes, codes, ◌==◌, ltb, leb, ◌||◌, ◌&&◌,
  arith, Bool-cases, ==_iff, All, if◌then◌else◌, append_assoc, length-append, drop-drop,
}
use rted_tftp.Protocol.{tftp_blksize_string, tftp_rrq, tftp_wrq, tftp_drq}
use rted_tftp.Packet.{ntohs, raw_opcode, overlay, zeros}
use rted_tftp.Packet.Layout.{zeros-add, length-zeros}
use rted_tftp.Net.{Address, Host, Net}
use rted_tftp.CLibrary.{tolower, skip_spaces}
use rted_tftp.Operation.{OperationId}
use rted_tftp.Request.{
  terminated, compare_cells, digits_run_off, atoi_runs_off, Fields, fields, outside, read_octets,
  on_option, on_mode, on_name, request_fields, Parsed, parsed, overread, parse_transfer,
  parse_opcode, server_parse_request_data,
}
use rted_tftp.Request.RoundTrip.{buffered}
use rted_tftp.Request.Bounds.Cells.{
  free_end, Follows, terminated-free_end, compare_cells-free_end, octets_read, key_cells, one_cell,
}

read_octets-within : (mode_string m : Bytes) → Follows m → read_octets mode_string m ≢ outside
unfolding read_octets
read_octets-within mode_string m f e = let g = octets_read m f in cc

on_option-within :
    (contents mode_string p : Bytes) (next received : ℕ)
    → drop next contents ≡ free_end p
    → on_option contents mode_string next received (compare_cells (free_end p) tftp_blksize_string)
      ≢ outside
unfolding on_option
on_option-within contents mode_string p next received e =
    elim (compare_cells-free_end p tftp_blksize_string key_cells) [
      | inl f ↦ rw f (λ g. cc)
      | inr (f, r) ↦
          let at_octets : drop (next + length tftp_blksize_string + 1) contents
              ≡ drop (suc (length tftp_blksize_string)) (free_end p) =
            sym (drop-drop next 8 (next + length tftp_blksize_string + 1) contents (omega arith))
            ∙ ap (drop 8) e in
          elim (Bool-cases (ltb (next + 4) received)) [
            | inl t ↦ rw (f, t, at_octets) (read_octets-within mode_string _ r)
            | inr t ↦ rw (f, t) (λ g. cc)
          ]
    ]

-- The rest behind the name; if that is one cell, the name reaches to the end of what can be received.
on_mode-within :
    (contents : Bytes) (at received : ℕ)
    → ((q : Bytes) × (drop at contents ≡ free_end q))
      ⊎ ((drop at contents ≡ 0 ∷ []) × (received ≤ at + 4))
    → on_mode contents at received (terminated (drop at contents)) ≢ outside
unfolding on_mode on_option terminated
on_mode-within contents at received (inr (e, short)) =
    let closed : ltb (at + 4) received ≡ false = ground arith in rw (e, closed) (λ g. cc)
on_mode-within contents at received (inl (q, e)) =
    let (s, found, rest) = terminated-free_end q in
    let behind : drop (at + (length s + 1)) contents ≡ drop (suc (length s)) (free_end q) =
      sym (drop-drop at (suc (length s)) (at + (length s + 1)) contents (omega arith))
      ∙ ap (drop (suc (length s))) e in
    elim (Bool-cases (ltb (at + 4) received)) [
      | inr t ↦ rw (e, found, t) (λ g. cc)
      | inl t ↦ elim rest [
        | inl (r, f) ↦
            rw (e, found, t, behind, f)
              (on_option-within contents s r (at + (length s + 1)) received (behind ∙ f))
        | inr (f, len) ↦ rw (e, found, t, behind, f, one_cell) (λ g. cc)
      ]
    ]

request_fields-within :
    (contents p : Bytes) (received : ℕ)
    → contents ≡ free_end p
    → received ≤ length p + 2
    → request_fields contents received ≢ outside
unfolding request_fields on_name
request_fields-within contents p received e short =
    let (s, found, rest) = terminated-free_end p in
    let at_is : drop (length s + 1) contents ≡ drop (suc (length s)) (free_end p) =
      let n : length s + 1 ≡ suc (length s) = omega arith in rw (n, e) refl in
    let first : terminated contents ≡ some s = ap terminated e ∙ found in
    rw first (
      on_mode-within contents (length s + 1) received (elim rest [
        | inl (q, f) ↦ inl (q, at_is ∙ f)
        | inr (f, len) ↦ inr (at_is ∙ f, omega arith)
      ]))

drop_two : (f z : Bytes) → 2 ≤ length f → drop 2 (f ++ z) ≡ drop 2 f ++ z
drop_two [] z h = absurd (omega arith)
drop_two (a ∷ []) z h = absurd (omega arith)
drop_two (a ∷ b ∷ f) z h = refl

length-drop_two : (f : Bytes) → 2 ≤ length f → length (drop 2 f) + 2 ≡ length f
length-drop_two [] h = absurd (omega arith)
length-drop_two (a ∷ []) h = absurd (omega arith)
length-drop_two (a ∷ b ∷ f) h = omega arith

-- What stands in the buffer behind the opcode of a datagram.
contents_end :
    (b : Bytes)
    → length b ≤ 512
    → (p : Bytes) × (drop 2 (overlay (zeros 514) b) ≡ free_end p) × (length p ≡ 510)
contents_end b h = (
  drop 2 (b ++ zeros k),
  ap (drop 2) (
        buffered b (omega arith)
        ∙ ap (◌++◌ b) (zeros-add k 2 (514 - length b) (omega arith))
        ∙ sym (append_assoc b (zeros k) (zeros 2)))
      ∙ drop_two (b ++ zeros k) (zeros 2) (omega (arith, sized)),
  omega (arith, sized, length-drop_two (b ++ zeros k) (omega (arith, sized))),
)
  where
    k : ℕ
    k = 512 - length b

    sized : length (b ++ zeros k) ≡ 512
    sized = omega (arith, length-append b (zeros k), length-zeros k)

parse_transfer-within :
    (h : Host) (fresh : Net) (data_socket : ℕ) (o : OperationId) (client : Address)
    (contents : Bytes) (f : Fields)
    → f ≢ outside
    → parse_transfer h fresh data_socket o client contents f ≢ overread
unfolding parse_transfer
parse_transfer-within h fresh data_socket o client contents outside w = absurd (w refl)
parse_transfer-within h fresh data_socket o client contents (fields m s) w = λ e. cc

parse_opcode-within :
    (h : Host) (fresh : Net) (data_socket : ℕ) (client : Address) (contents : Bytes)
    (received opcode : ℕ)
    → request_fields contents received ≢ outside
    → parse_opcode h fresh data_socket client contents received opcode ≢ overread
unfolding parse_opcode
parse_opcode-within h fresh data_socket client contents received opcode w =
    elim (Bool-cases (opcode == tftp_rrq)) [
      | inl e ↦ rw e (parse_transfer-within h fresh data_socket _ client contents _ w)
      | inr e ↦ elim (Bool-cases (opcode == tftp_wrq)) [
        | inl f ↦ rw (e, f) (parse_transfer-within h fresh data_socket _ client contents _ w)
        | inr f ↦ elim (Bool-cases (opcode == tftp_drq)) [
          | inl g ↦ rw (e, f, g) (λ x. cc)
          | inr g ↦ rw (e, f, g) (λ x. cc)
        ]
      ]
    ]

-- A datagram of at most 512 bytes, whatever they are, is parsed by the server without a read past its
-- zeroed buffer of 514 bytes.
pub server_parse_request_data-within :
    (h : Host) (fresh : Net) (data_socket : ℕ) (client : Address) (b : Bytes)
    → length b ≤ 512
    → server_parse_request_data h fresh data_socket client (overlay (zeros 514) b) (length b)
      ≢ overread
unfolding server_parse_request_data
server_parse_request_data-within h fresh data_socket client b short =
    let (p, e, len) = contents_end b short in
    parse_opcode-within h fresh data_socket client _ (length b) _
      (request_fields-within _ p (length b) e (omega arith))
