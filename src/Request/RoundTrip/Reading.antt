-- ===== src/Request/RoundTrip/Reading.antt =====
-- The fields that the server reads from the packet of a transfer.
use rted_tftp.Base.{
  ℕ, ◌+◌, ◌-◌, ◌≤◌, ◌≡◌, sym, ap, ◌∙◌, Bool, true, false, [], ◌∷◌, ◌++◌, Option, none, some, length,
  take, drop, Bytes, codes, if◌then◌else◌, arith, length-append, append_assoc, take_all,
}
use rted_tftp.Protocol.{
  tftp_blksize_string, tftp_blksize_min, tftp_blksize_max, server_storage_path, tftp_filename_max,
}
use rted_tftp.Packet.{overlay, zeros}
use rted_tftp.Packet.Layout.{network16, zeros-add, overlay-append, length-zeros}
use rted_tftp.CLibrary.{c_string}
use rted_tftp.Operation.{requested_block_size, supported_block_size}
use rted_tftp.Request.{is_custom, five_digits, request_fields, fields, stored_path}
use rted_tftp.Request.Layout.{request_bytes}
use rted_tftp.Request.Digits.{atoi16-five_digits}
use rted_tftp.Request.Names.{IsName}
use rted_tftp.Request.Reading.{contents_of, c_string-append, plain_fields, custom_fields}

-- The strings that the server reads for a block size.
abbrev pub size_string : ℕ → Option Bytes
size_string bs = if is_custom bs then some (five_digits bs) else none

abbrev pub octet_request : ℕ → Bytes → ℕ → Bytes
octet_request opcode name bs = request_bytes opcode name (codes "octet") bs

abbrev pub option_of : Bool → ℕ → Bytes
option_of custom bs =
    if custom
    then (((0 ∷ []) ++ (tftp_blksize_string ++ 0 ∷ [])) ++ (five_digits bs ++ 0 ∷ [])) ++ 0 ∷ []
    else 0 ∷ 0 ∷ []

abbrev pub with_option : Bool → ℕ → Bytes → ℕ → Bytes
with_option custom opcode name bs =
    ((network16 opcode ++ (name ++ 0 ∷ [])) ++ codes "octet") ++ option_of custom bs

pub length-with_option :
    (custom : Bool) (opcode : ℕ) (name : Bytes) (bs : ℕ)
    → length (with_option custom opcode name bs) ≡ length name + (if custom then 24 else 10)
unfolding five_digits
length-with_option custom opcode name bs =
    let front = (network16 opcode ++ (name ++ 0 ∷ [])) ++ codes "octet" in
    let l1 = length-append (network16 opcode ++ (name ++ 0 ∷ [])) (codes "octet") in
    let l2 = length-append name (0 ∷ []) in
    length-append front (option_of custom bs)
    ∙ elim custom
        as (λ c. length front + length (option_of c bs) ≡ length name + (if c then 24 else 10)) [
          | true ↦ omega (arith, l1, l2)
          | false ↦ omega (arith, l1, l2)
        ]

-- The server's buffer, zeroed before, with a request in it.
pub buffered : (p : Bytes) → length p ≤ 514 → overlay (zeros 514) p ≡ p ++ zeros (514 - length p)
buffered p h =
    ap (λ z. overlay z p) (zeros-add (length p) (514 - length p) 514 (omega arith))
    ∙ overlay-append (zeros (length p)) (zeros (514 - length p)) p (sym (length-zeros (length p)))

pub fields_with_option :
    (custom : Bool) (opcode : ℕ) (name z : Bytes) (bs received : ℕ)
    → IsName name
    → received ≡ length name + (if custom then 24 else 10)
    → request_fields (drop 2 (with_option custom opcode name bs ++ z)) received
      ≡ fields (codes "octet") (if custom then some (five_digits bs) else none)
fields_with_option true opcode name z bs received a r =
    let eq : drop 2 (with_option true opcode name bs ++ z)
        ≡ contents_of name (codes "blksize" ++ (0 ∷ (five_digits bs ++ (0 ∷ 0 ∷ z)))) =
      simp append_assoc in
    ap (λ contents. request_fields contents received) eq
    ∙ custom_fields name (0 ∷ z) bs received a (omega arith)
fields_with_option false opcode name z bs received a r =
    let eq : drop 2 (with_option false opcode name bs ++ z) ≡ contents_of name (0 ∷ z) =
      simp append_assoc in
    ap (λ contents. request_fields contents received) eq
    ∙ plain_fields name z bs received a (omega arith)

pub size_read :
    (custom : Bool) (bs : ℕ)
    → is_custom bs ≡ custom
    → tftp_blksize_min ≤ bs
    → bs ≤ tftp_blksize_max
    → supported_block_size (requested_block_size (if custom then some (five_digits bs) else none))
      ≡ some bs
unfolding supported_block_size requested_block_size is_custom
size_read true bs c lo hi = rw (atoi16-five_digits bs (omega arith)) (ground arith)
size_read false bs c lo hi = ground arith

pub name_stored :
    (custom : Bool) (opcode : ℕ) (name z : Bytes) (bs : ℕ)
    → IsName name
    → stored_path (drop 2 (with_option custom opcode name bs ++ z)) ≡ server_storage_path ++ name
unfolding stored_path
name_stored custom opcode name z bs a =
    let eq : drop 2 (with_option custom opcode name bs ++ z)
        ≡ name ++ (0 ∷ (codes "octet" ++ (option_of custom bs ++ z))) =
      simp append_assoc in
    ap (λ contents. server_storage_path ++ take tftp_filename_max (c_string contents)) eq
    ∙ ap (λ n. server_storage_path ++ take tftp_filename_max n) (c_string-append name _ a.0)
    ∙ ap (◌++◌ server_storage_path) (take_all tftp_filename_max name a.1)
