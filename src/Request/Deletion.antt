-- ===== src/Request/Deletion.antt =====
-- The packet of a deletion request, from the client to the server.
use rted_tftp.Base.{
  ℕ, ◌+◌, ◌-◌, ◌≤◌, ◌≡◌, refl, ap, ◌∙◌, [], ◌∷◌, ◌++◌, some, length, take, drop, Bytes, codes,
  arith, length-append, append_assoc, take_all,
}
use rted_tftp.Protocol.{tftp_drq, server_storage_path, tftp_filename_max}
use rted_tftp.Packet.{
  Endian, little, big, htons, store16, ntohs, load16, raw_opcode, overlay, poke, zeros,
}
use rted_tftp.Packet.Layout.{network16, store16-htons}
use rted_tftp.Net.{Address, Host, Net}
use rted_tftp.CLibrary.{c_string}
use rted_tftp.Operation.{
  operation_request_delete, operation_handle_delete, OperationData, named_operation, init_for,
  tftp_init_operation_data,
}
use rted_tftp.Request.{
  request_packet, request_with_mode, request_opcode, fill_request, write_contents, request_size,
  filename_field, mode_string_of, stored_path, parsed, parse_opcode, server_parse_request_data,
}
use rted_tftp.Request.Names.{IsName, EndsWith, filename_field-EndsWith}
use rted_tftp.Request.Layout.{copy_next}
use rted_tftp.Request.Reading.{c_string-append}
use rted_tftp.Request.RoundTrip.{buffered}

abbrev pub delete_bytes : Bytes → Bytes
delete_bytes name = (network16 tftp_drq ++ (name ++ 0 ∷ [])) ++ 0 ∷ 0 ∷ []

filled_delete :
    (e : Endian) (name : Bytes) (k : ℕ)
    → k ≡ 4 + (length name + 1)
    → poke 2 (name ++ 0 ∷ []) (poke 0 (store16 e (htons e tftp_drq)) (zeros k)) ≡ delete_bytes name
filled_delete e name k size =
    let len = length-append name (0 ∷ []) in
    ap (λ b. poke 2 (name ++ 0 ∷ []) (poke 0 b (zeros k))) (store16-htons e tftp_drq)
    ∙ ap (poke 2 (name ++ 0 ∷ []))
        (copy_next 0 k (length (name ++ 0 ∷ []) + 2) [] (network16 tftp_drq) refl (omega arith))
    ∙ copy_next 2 (length (name ++ 0 ∷ []) + 2) 2 (network16 tftp_drq) (name ++ 0 ∷ []) refl refl

-- A deletion of a file whose name has at most 255 bytes with neither zeros nor slashes is asked for by
-- the opcode, the name and three zero bytes.
pub request_packet-delete_bytes :
    (e : Endian) (op : OperationData) (name : Bytes)
    → IsName name
    → EndsWith op name
    → op.operation_id ≡ operation_request_delete
    → request_packet e op ≡ some (delete_bytes name)
unfolding request_packet request_with_mode request_opcode fill_request write_contents request_size
request_packet-delete_bytes e op name a p o =
    ap
      (λ i. elim i [
        | operation_request_delete ↦
            request_with_mode e op (some []) (request_opcode operation_request_delete)
        | operation ↦
            request_with_mode e op (mode_string_of op.transfer_mode) (request_opcode operation)
      ])
      o
    ∙ ap some (
        ap
          (λ i. write_contents i (filename_field op) [] op.block_size (
            poke 0 (store16 e (htons e tftp_drq))
              (zeros (request_size i (filename_field op) [] op.block_size))))
          o
        ∙ ap (λ f. poke 2 f (poke 0 (store16 e (htons e tftp_drq)) (zeros (4 + length f))))
            (filename_field-EndsWith op name a p)
        ∙ filled_delete e name (4 + length (name ++ 0 ∷ []))
            (omega (arith, length-append name (0 ∷ []))))

opcode_is : (e : Endian) (rest : Bytes) → ntohs e (raw_opcode e (0 ∷ 6 ∷ rest)) ≡ 6
unfolding ntohs load16
opcode_is little rest = refl
opcode_is big rest = refl

-- What the server should work on.
abbrev pub served_delete : ℕ → Bytes → OperationData
served_delete data_socket name =
    named_operation operation_handle_delete data_socket (codes "DELETE")
      (server_storage_path ++ name)

-- From that packet the server makes the deletion of the file of that name in its storage.
pub delete_bytes-parsed :
    (h : Host) (fresh : Net) (data_socket : ℕ) (client : Address) (name : Bytes)
    → IsName name
    → server_parse_request_data h fresh data_socket client
        (overlay (zeros 514) (delete_bytes name))
        (length (delete_bytes name))
      ≡ parsed (record fresh { peer_address = client }, some (served_delete data_socket name))
unfolding server_parse_request_data parse_opcode tftp_init_operation_data init_for stored_path
delete_bytes-parsed h fresh data_socket client name a =
    let len : length (delete_bytes name) ≤ 514 =
      omega
        (arith, length-append (name ++ 0 ∷ []) (0 ∷ 0 ∷ []), length-append name (0 ∷ []), a.1) in
    let z : Bytes = zeros (514 - length (delete_bytes name)) in
    let contents : drop 2 (delete_bytes name ++ z) ≡ name ++ (0 ∷ 0 ∷ 0 ∷ z) =
      append_assoc (name ++ 0 ∷ []) (0 ∷ 0 ∷ []) z ∙ append_assoc name (0 ∷ []) (0 ∷ 0 ∷ z) in
    let path : take tftp_filename_max (c_string (drop 2 (delete_bytes name ++ z))) ≡ name =
      ap (λ m. take tftp_filename_max (c_string m)) contents
      ∙ ap (take tftp_filename_max) (c_string-append name _ a.0)
      ∙ take_all tftp_filename_max name a.1 in
    rw (buffered (delete_bytes name) len, opcode_is h.endian)
      (ap
        (λ m. parsed (
          record fresh { peer_address = client },
          some (
              named_operation operation_handle_delete data_socket (codes "DELETE")
                (server_storage_path ++ m)),
        ))
        path)
