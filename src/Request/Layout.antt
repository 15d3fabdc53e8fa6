-- ===== src/Request/Layout.antt =====
-- The packet of a request for a transfer: every copy into it fits the memory allocated for it.
use rted_tftp.Base.{
  ℕ, ◌+◌, ◌%◌, ◌≤◌, ◌≡◌, refl, sym, ap, ◌∙◌, Bool, true, false, [], ◌∷◌, ◌++◌, length, Bytes,
  if◌then◌else◌, arith, length-append, append_assoc,
}
use rted_tftp.Protocol.{tftp_blksize_string}
use rted_tftp.Packet.{Endian, store16, htons, poke, zeros}
use rted_tftp.Packet.Layout.{network16, store16-htons, poke-append, zeros-add, length-zeros}
use rted_tftp.Operation.{
  OperationId, operation_undefined, operation_receive, operation_send, operation_request_delete,
  operation_handle_delete,
}
use rted_tftp.Request.{is_custom, five_digits, write_contents, request_size}

-- A copy to the end of what is written takes its place from the zeros behind.
pub copy_next :
    (i k k' : ℕ) (before bs : Bytes)
    → i ≡ length before
    → k ≡ length bs + k'
    → poke i bs (before ++ zeros k) ≡ (before ++ bs) ++ zeros k'
copy_next i k k' before bs e f =
    ap (λ z. poke i bs (before ++ z)) (zeros-add (length bs) k' k f)
    ∙ poke-append i before (zeros (length bs)) (zeros k') bs e (sym (length-zeros (length bs)))
    ∙ sym (append_assoc before bs (zeros k'))

-- What follows the mode: its terminator, the option if the size is not the default one, and what
-- is left of the zeroed memory.
abbrev pub option_field : ℕ → Bytes
option_field block_size =
    if is_custom block_size
    then (((0 ∷ []) ++ (tftp_blksize_string ++ 0 ∷ [])) ++ (five_digits block_size ++ 0 ∷ []))
      ++ 0 ∷ []
    else 0 ∷ 0 ∷ []

abbrev pub request_bytes : ℕ → Bytes → Bytes → ℕ → Bytes
request_bytes opcode name mode_string block_size =
    ((network16 opcode ++ (name ++ 0 ∷ [])) ++ mode_string) ++ option_field block_size

abbrev pub IsTransfer : OperationId → Type 0
IsTransfer operation_receive = Unit {0}
IsTransfer operation_send = Unit {0}
IsTransfer operation_request_delete = ⊥
IsTransfer operation_handle_delete = ⊥
IsTransfer operation_undefined = ⊥

module _ (opcode : ℕ) (name mode_string : Bytes) (small : length name ≤ 255)
    (short : length mode_string ≤ 8) where
  abbrev opened : ℕ → Bytes
  opened k = network16 opcode ++ zeros k

  -- The copies of the name and of the mode.
  moded :
      (k k' : ℕ)
      → k ≡ length name + 1 + (length mode_string + k')
      → poke (2 + length (name ++ 0 ∷ []) % 65536) mode_string (poke 2 (name ++ 0 ∷ []) (opened k))
        ≡ ((network16 opcode ++ (name ++ 0 ∷ [])) ++ mode_string) ++ zeros k'
  moded k k' e =
      let len = length-append name (0 ∷ []) in
      ap (poke (2 + length (name ++ 0 ∷ []) % 65536) mode_string) (
        copy_next 2 k (length mode_string + k') (network16 opcode) (name ++ 0 ∷ []) refl
          (omega (arith, len)))
      ∙ copy_next (2 + length (name ++ 0 ∷ []) % 65536) (length mode_string + k') k'
          (network16 opcode ++ (name ++ 0 ∷ [])) mode_string (omega (arith, len)) refl

  opening :
      (e : Endian) (k k' : ℕ)
      → k ≡ 2 + k'
      → poke 0 (store16 e (htons e opcode)) (zeros k) ≡ opened k'
  opening e k k' q =
      ap (λ b. poke 0 b (zeros k)) (store16-htons e opcode)
      ∙ copy_next 0 k k' [] (network16 opcode) refl q

  abbrev written : Bytes
  written = (network16 opcode ++ (name ++ 0 ∷ [])) ++ mode_string

  length-written : length written ≡ length name + 3 + length mode_string
  length-written =
      let outer = length-append (network16 opcode ++ (name ++ 0 ∷ [])) mode_string in
      omega (arith, outer, length-append name (0 ∷ []))

  -- The copies of the option's key and value.
  sized :
      (i j bs : ℕ)
      → i ≡ length name + 4 + length mode_string
      → j ≡ i + 8
      → poke j
          (five_digits bs ++ 0 ∷ [])
          (poke i (tftp_blksize_string ++ 0 ∷ []) (written ++ zeros 16))
        ≡ (((written ++ 0 ∷ []) ++ (tftp_blksize_string ++ 0 ∷ [])) ++ (five_digits bs ++ 0 ∷ []))
          ++ 0 ∷ []
  sized i j bs e f =
      let len = length-append written (0 ∷ []) in
      let len' = length-append (written ++ 0 ∷ []) (tftp_blksize_string ++ 0 ∷ []) in
      ap (λ m. poke j (five_digits bs ++ 0 ∷ []) (poke i (tftp_blksize_string ++ 0 ∷ []) m))
        (sym (append_assoc written (0 ∷ []) (zeros 15)))
      ∙ ap (poke j (five_digits bs ++ 0 ∷ [])) (
          copy_next i 15 7 (written ++ 0 ∷ []) (tftp_blksize_string ++ 0 ∷ [])
            (omega (arith, len, length-written)) refl)
      ∙ copy_next j 7 1 ((written ++ 0 ∷ []) ++ (tftp_blksize_string ++ 0 ∷ []))
          (five_digits bs ++ 0 ∷ []) (omega (arith, len, len', length-written))
          (unfold five_digits in refl)

  regroup : (a b c d e : Bytes) → (((a ++ b) ++ c) ++ d) ++ e ≡ a ++ (((b ++ c) ++ d) ++ e)
  regroup a b c d e = simp append_assoc

  -- The packet of a transfer, for either setting of the option.
  transfer_contents :
      (e : Endian) (bs : ℕ) (custom : Bool) (size : ℕ)
      → is_custom bs ≡ custom
      → size ≡ 4 + (length (name ++ 0 ∷ []) + (length mode_string + (if custom then 8 + 6 else 0)))
      → (let after_name = length (name ++ 0 ∷ []) % 65536 in
          let after_mode = (after_name + length mode_string) % 65536 in
          let at_option = (after_mode + 1) % 65536 in
          let filled =
            poke
              (2 + after_name)
              mode_string
              (poke 2 (name ++ 0 ∷ []) (poke 0 (store16 e (htons e opcode)) (zeros size))) in
          if custom
          then poke
              (2 + (at_option + 8) % 65536)
              (five_digits bs ++ 0 ∷ [])
              (poke (2 + at_option) (tftp_blksize_string ++ 0 ∷ []) filled)
          else filled)
        ≡ request_bytes opcode name mode_string bs
  transfer_contents e bs false size c q =
      let len = length-append name (0 ∷ []) in
      let k = length name + 1 + (length mode_string + 2) in
      rw c (
        ap (λ m. poke (2 + length (name ++ 0 ∷ []) % 65536) mode_string (poke 2 (name ++ 0 ∷ []) m))
          (opening e size k (omega (arith, len)))
        ∙ moded k 2 refl)
  transfer_contents e bs true size c q =
      let len = length-append name (0 ∷ []) in
      let k = length name + 1 + (length mode_string + 16) in
      let after_name = length (name ++ 0 ∷ []) % 65536 in
      let at_option = ((after_name + length mode_string) % 65536 + 1) % 65536 in
      rw c (
        ap
          (λ m.
            poke (2 + (at_option + 8) % 65536) (five_digits bs ++ 0 ∷ [])
              (poke (2 + at_option) (tftp_blksize_string ++ 0 ∷ []) m))
          (ap (λ m. poke (2 + after_name) mode_string (poke 2 (name ++ 0 ∷ []) m))
              (opening e size k (omega (arith, len)))
            ∙ moded k 16 refl)
        ∙ sized (2 + at_option) (2 + (at_option + 8) % 65536) bs (omega (arith, len))
            (omega (arith, len))
        ∙ regroup written (0 ∷ []) (tftp_blksize_string ++ 0 ∷ []) (five_digits bs ++ 0 ∷ [])
            (0 ∷ []))

  pub write_contents-request_bytes :
      (e : Endian) (operation : OperationId) (bs : ℕ)
      → IsTransfer operation
      → write_contents operation (name ++ 0 ∷ []) mode_string bs (
          poke 0
            (store16 e (htons e opcode))
            (zeros (request_size operation (name ++ 0 ∷ []) mode_string bs)))
        ≡ request_bytes opcode name mode_string bs
  unfolding write_contents request_size
  write_contents-request_bytes e operation_receive bs t =
      transfer_contents e bs (is_custom bs) _ refl refl
  write_contents-request_bytes e operation_send bs t =
      transfer_contents e bs (is_custom bs) _ refl refl
  write_contents-request_bytes e operation_request_delete bs t = absurd t
  write_contents-request_bytes e operation_handle_delete bs t = absurd t
  write_contents-request_bytes e operation_undefined bs t = absurd t
