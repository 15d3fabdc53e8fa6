-- ===== src/Main/Dispatch.antt =====
-- The checks of `get_selection_from_args` are enough for `main`.
use rted_tftp.Base.{
  ℕ, zero, suc, ◌+◌, ◌<◌, ◌≤◌, ◌≡◌, refl, ap, ◌∙◌, inl, inr, Bool, true, List, [], ◌∷◌, Option,
  none, some, length, get_elem?, get_or, Bytes, codes, arith, Bool-cases, ltb, leb,
}
use rted_tftp.Operation.{
  OperationId, operation_undefined, operation_receive, operation_send, operation_request_delete,
  operation_handle_delete,
}
use rted_tftp.Main.{
  OperationMode, operation_modes, is_strncmp_equal, Selection, selected, unselected,
  missing_arguments, select_mode, get_selection_from_args, Run, runs_server, runs_client, bad_input,
  exits_missing, exits_address, exits_operation, run_client, client_operation, run_selection, main,
  Presented, parse_address,
}

-- A selected mode is the one that the word names, and has its arguments.
abbrev Selects : ℕ → Bytes → ℕ → List OperationMode → Selection → Type 0
Selects argc word i modes (selected j) =
    (k : ℕ) × (mode : OperationMode) × (j ≡ i + k)
    × (get_elem? modes k ≡ some mode)
    × (is_strncmp_equal 8 word mode.input_string ≡ true)
    × (mode.min_argument_count ≤ argc)
Selects argc word i modes unselected = Unit
Selects argc word i modes missing_arguments = Unit

Selects-suc :
    (argc : ℕ) (word : Bytes) (i : ℕ) (mode : OperationMode) (modes : List OperationMode)
    (r : Selection)
    → Selects argc word (suc i) modes r
    → Selects argc word i (mode ∷ modes) r
Selects-suc argc word i mode modes (selected j) (k, m, e, at, same, enough) =
    (suc k, m, omega arith, at, same, enough)
Selects-suc argc word i mode modes unselected s = tt
Selects-suc argc word i mode modes missing_arguments s = tt

select_mode-Selects :
    (argc : ℕ) (word : Bytes) (i : ℕ) (modes : List OperationMode)
    → Selects argc word i modes (select_mode argc word i modes)
unfolding select_mode
select_mode-Selects argc word i [] = tt
select_mode-Selects argc word i (mode ∷ modes) =
    let rest = Selects-suc argc word i mode modes _ (select_mode-Selects argc word (suc i) modes) in
    elim (Bool-cases (is_strncmp_equal 8 word mode.input_string)) [
      | inl e ↦ rw e (elim (Bool-cases (leb mode.min_argument_count argc)) [
        | inl f ↦
            let enough : mode.min_argument_count ≤ argc = ground arith in
            rw f (0, mode, omega arith, refl, e, enough)
        | inr f ↦ rw f tt
      ])
      | inr e ↦ rw e rest
    ]

-- The words of the command line, and the operations that they stand for.
abbrev pub Names : OperationId → Bytes → Type 0
Names operation_send word = is_strncmp_equal 8 word (codes "write") ≡ true
Names operation_receive word = is_strncmp_equal 8 word (codes "read") ≡ true
Names operation_request_delete word = is_strncmp_equal 8 word (codes "delete") ≡ true
Names operation_undefined word = ⊥
Names operation_handle_delete word = ⊥

-- A run of the client has the four arguments that it reads, and the operation that the word names;
-- the switch's default is never reached.
abbrev pub IsDispatched : List Bytes → Run → Type 0
IsDispatched argv (runs_client op_id peer file mode size) =
    (4 ≤ length argv)
    × (get_elem? argv 2 ≡ some peer)
    × (get_elem? argv 3 ≡ some file)
    × (mode ≡ get_elem? argv 4)
    × (size ≡ get_elem? argv 5)
    × Names op_id (get_or argv 1 [])
IsDispatched argv exits_operation = ⊥
IsDispatched argv runs_server = is_strncmp_equal 8 (get_or argv 1 []) (codes "serve") ≡ true
IsDispatched argv bad_input = Unit
IsDispatched argv exits_missing = Unit
IsDispatched argv exits_address = Unit

get_elem?-get_or :
    (xs : List Bytes) (i : ℕ) (d : Bytes) → i < length xs → get_elem? xs i ≡ some (get_or xs i d)
get_elem?-get_or [] i d h = elim h [ ]
get_elem?-get_or (x ∷ xs) zero d h = refl
get_elem?-get_or (x ∷ xs) (suc i) d h = get_elem?-get_or xs i d (omega arith)

abbrev word_of : Option OperationMode → Bytes
word_of none = []
word_of (some mode) = mode.input_string

abbrev minimum : Option OperationMode → ℕ
minimum none = 0
minimum (some mode) = mode.min_argument_count

module _ (parsed_address : Bytes → Bool) (argv : List Bytes) where
  -- The word of the mode at a known place.
  named :
      {o : Option OperationMode} {mode : OperationMode}
      → o ≡ some mode
      → is_strncmp_equal 8 (get_or argv 1 []) mode.input_string ≡ true
      → is_strncmp_equal 8 (get_or argv 1 []) (word_of o) ≡ true
  named at same = ap (is_strncmp_equal 8 (get_or argv 1 [])) (ap word_of at) ∙ same

  client-IsDispatched :
      (j : ℕ) (op_id : OperationId)
      → client_operation (suc j) ≡ some op_id
      → Names op_id (get_or argv 1 [])
      → 4 ≤ length argv
      → IsDispatched argv (run_selection parsed_address argv (selected (suc j)))
  unfolding run_selection run_client
  client-IsDispatched j op_id c named enough =
      let lt : ltb 3 (length argv) ≡ true = ground arith in
      elim (Bool-cases (parsed_address (get_or argv 2 []))) [
        | inl e ↦
            rw (lt, c, e)
              (
                enough,
                get_elem?-get_or argv 2 [] (omega arith),
                get_elem?-get_or argv 3 [] (omega arith),
                refl,
                refl,
                named,
              )
        | inr e ↦ rw (lt, c, e) tt
      ]

  selected-IsDispatched :
      (j : ℕ) (mode : OperationMode)
      → get_elem? operation_modes j ≡ some mode
      → is_strncmp_equal 8 (get_or argv 1 []) mode.input_string ≡ true
      → mode.min_argument_count ≤ length argv
      → IsDispatched argv (run_selection parsed_address argv (selected j))
  unfolding run_selection client_operation
  selected-IsDispatched zero mode at same enough = named at same
  selected-IsDispatched (suc zero) mode at same enough =
      let four : 4 ≡ mode.min_argument_count = ap minimum at in
      client-IsDispatched 0 operation_send refl (named at same) (omega arith)
  selected-IsDispatched (suc (suc zero)) mode at same enough =
      let four : 4 ≡ mode.min_argument_count = ap minimum at in
      client-IsDispatched 1 operation_receive refl (named at same) (omega arith)
  selected-IsDispatched (suc (suc (suc zero))) mode at same enough =
      let four : 4 ≡ mode.min_argument_count = ap minimum at in
      client-IsDispatched 2 operation_request_delete refl (named at same) (omega arith)
  selected-IsDispatched (suc (suc (suc (suc j)))) mode at same enough = absurd cc

  selection-IsDispatched :
      (r : Selection)
      → Selects (length argv) (get_or argv 1 []) 0 operation_modes r
      → IsDispatched argv (run_selection parsed_address argv r)
  unfolding run_selection
  selection-IsDispatched (selected j) (k, mode, e, at, same, enough) =
      let e' : k ≡ j = omega arith in selected-IsDispatched j mode (rw e' at at) same enough
  selection-IsDispatched unselected s = tt
  selection-IsDispatched missing_arguments s = tt

-- Whatever the arguments are, `main` starts the server only for the word "serve", and the client only
-- with at least four arguments, on the peer and the file that they name, to send for the word "write",
-- to receive for "read" and to have a file deleted for "delete"; the default of its switch is never reached. Words are compared in their first eight bytes.
pub main-IsDispatched :
    (inet_pton : Bytes → Presented) (argv : List Bytes) → IsDispatched argv (main inet_pton argv)
unfolding main get_selection_from_args
main-IsDispatched inet_pton argv = elim (Bool-cases (ltb 1 (length argv))) [
  | inl e ↦ rw e (
      selection-IsDispatched (parse_address inet_pton) argv _
        (select_mode-Selects (length argv) (get_or argv 1 []) 0 operation_modes))
  | inr e ↦ rw e (selection-IsDispatched (parse_address inet_pton) argv unselected tt)
]
