-- ===== src/Request/Names.antt =====
-- The name that a request carries, and the packet that `send_request_packet` builds with it.
use rted_tftp.Base.{
  ℕ, ◌+◌, ◌≤◌, ◌≡◌, ◌≢◌, refl, ◌∙◌, ap, ap₂, ◌⊎◌, inl, inr, [], ◌∷◌, ◌++◌, none, some, length, take,
  Bytes, codes, arith, All, length-append, take_all, ◌==◌, ==_iff, Bool-cases,
}
use rted_tftp.Packet.{Endian}
use rted_tftp.Operation.{
  OperationData, OperationId, operation_receive, operation_send, operation_request_delete,
  operation_handle_delete, operation_undefined, mode_octet,
}
use rted_tftp.Request.{
  after_last_slash, filename_field, mode_string_of, request_opcode, fill_request, request_with_mode,
  request_packet,
}
use rted_tftp.Request.Layout.{IsTransfer, request_bytes, write_contents-request_bytes}

-- A file name: neither zero bytes nor slashes, and as many bytes as the server takes.
abbrev pub IsName : Bytes → Type 0
IsName name = All (λ c. (c ≢ 0) × (c ≢ 47)) name × (length name ≤ 255)

-- The path of an operation is the name, or ends with a slash and the name.
abbrev pub EndsWith : OperationData → Bytes → Type 0
EndsWith op name =
    ((op.path ≡ name) × (op.path_len ≡ length name + 1))
    ⊎ ((directory : Bytes) × (op.path ≡ directory ++ (47 ∷ name)))

no_slash : (name : Bytes) → All (λ c. (c ≢ 0) × (c ≢ 47)) name → after_last_slash name ≡ none
unfolding after_last_slash
no_slash [] a = refl
no_slash (c ∷ name) (d, a) = elim (Bool-cases (c == 47)) [
  | inl e ↦ absurd (d.1 ((==_iff c 47).0 e))
  | inr e ↦ rw (no_slash name a, e) refl
]

after_slash :
    (directory name : Bytes)
    → All (λ c. (c ≢ 0) × (c ≢ 47)) name
    → after_last_slash (directory ++ (47 ∷ name)) ≡ some name
unfolding after_last_slash
after_slash [] name a = rw (no_slash name a) refl
after_slash (c ∷ directory) name a = rw (after_slash directory name a) refl

pub filename_field-EndsWith :
    (op : OperationData) (name : Bytes)
    → IsName name
    → EndsWith op name
    → filename_field op ≡ name ++ (0 ∷ [])
unfolding filename_field
filename_field-EndsWith op name a (inl (p, l)) =
    let q : after_last_slash op.path ≡ none = ap after_last_slash p ∙ no_slash name a.0 in
    rw (filename_field, q)
      (ap₂ (λ k path. take k (path ++ (0 ∷ []))) l p
        ∙ take_all (length name + 1) (name ++ (0 ∷ []))
            (omega (arith, length-append name (0 ∷ []))))
filename_field-EndsWith op name a (inr (directory, p)) =
    let q : after_last_slash op.path ≡ some name =
      ap after_last_slash p ∙ after_slash directory name a.0 in
    rw (filename_field, q) refl

-- The opcode that a transfer is requested with.
abbrev pub opcode_of : OperationId → ℕ
opcode_of operation_send = 2
opcode_of _ = 1

fill_request-request_bytes :
    (e : Endian) (op : OperationData) (name : Bytes)
    → IsName name
    → EndsWith op name
    → IsTransfer op.operation_id
    → fill_request e op (codes "octet") (opcode_of op.operation_id)
      ≡ request_bytes (opcode_of op.operation_id) name (codes "octet") op.block_size
unfolding fill_request
fill_request-request_bytes e op name a p t = rw (filename_field-EndsWith op name a p) (
    write_contents-request_bytes (opcode_of op.operation_id) name (codes "octet") a.1 (omega arith)
      e op.operation_id op.block_size t)

transfer_packet :
    (e : Endian) (op : OperationData) (o : OperationId)
    → IsTransfer o
    → elim o [
      | operation_request_delete ↦
          request_with_mode e op (some []) (request_opcode operation_request_delete)
      | operation ↦
          request_with_mode e op (mode_string_of op.transfer_mode) (request_opcode operation)
    ]
      ≡ request_with_mode e op (mode_string_of op.transfer_mode) (some (opcode_of o))
unfolding request_opcode
transfer_packet e op operation_receive t = refl
transfer_packet e op operation_send t = refl
transfer_packet e op operation_request_delete t = absurd t
transfer_packet e op operation_handle_delete t = absurd t
transfer_packet e op operation_undefined t = absurd t

-- For a transfer in octet mode whose path ends with a name of at most 255 bytes, with neither zeros
-- nor slashes, the packet is the opcode, the name, the mode, and where the block size is not the
-- default one, the option with five digits: the copies fit the memory allocated for it, and one or two
-- zero bytes are left.
pub request_packet-request_bytes :
    (e : Endian) (op : OperationData) (name : Bytes)
    → IsName name
    → EndsWith op name
    → IsTransfer op.operation_id
    → op.transfer_mode ≡ mode_octet
    → request_packet e op
      ≡ some (request_bytes (opcode_of op.operation_id) name (codes "octet") op.block_size)
unfolding request_packet request_with_mode mode_string_of request_opcode
request_packet-request_bytes e op name a p t m =
    transfer_packet e op op.operation_id t
    ∙ ap (λ mode. request_with_mode e op (mode_string_of mode) (some (opcode_of op.operation_id))) m
    ∙ ap some (fill_request-request_bytes e op name a p t)
