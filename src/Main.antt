-- ===== src/Main.antt =====
-- main.c and networking_common.c: the command line and what the program is started as.
pub mod Dispatch
pub mod Addresses
use rted_tftp.Base.{
  ℕ, zero, suc, ◌+◌, Bool, true, false, ◌&&◌, List, [], ◌∷◌, Option, none, some, length, get_elem?,
  get_or, Bytes, codes, if◌then◌else◌, ◌==◌, ltb, leb,
}
use rted_tftp.Operation.{OperationId, operation_receive, operation_send, operation_request_delete}

-- OperationMode_t, without its texts.
pub record OperationMode : Type 0 where
  pub min_argument_count : ℕ
  pub input_string : Bytes

abbrev pub operation_modes : List OperationMode
operation_modes =
    record { min_argument_count = 2; input_string = codes "serve" }
    ∷ record { min_argument_count = 4; input_string = codes "write" }
    ∷ record { min_argument_count = 4; input_string = codes "read" }
    ∷ record { min_argument_count = 4; input_string = codes "delete" }
    ∷ []

-- `strncmp(s, t, n) == 0`
unfoldable pub is_strncmp_equal : ℕ → Bytes → Bytes → Bool
is_strncmp_equal zero s t = true
is_strncmp_equal (suc n) [] [] = true
is_strncmp_equal (suc n) [] (d ∷ t) = false
is_strncmp_equal (suc n) (c ∷ s) [] = false
is_strncmp_equal (suc n) (c ∷ s) (d ∷ t) = (c == d) && is_strncmp_equal n s t

-- A mode's index, the value -1, or an exit where the mode lacks arguments.
pub data Selection : Type 0 where
  selected : ℕ → Selection
  unselected missing_arguments : Selection

-- The loop over the modes, from the index on.
unfoldable pub select_mode : ℕ → Bytes → ℕ → List OperationMode → Selection
select_mode argc word i [] = unselected
select_mode argc word i (mode ∷ modes) =
    let rest = select_mode argc word (suc i) modes in
    if is_strncmp_equal 8 word mode.input_string
    then (if leb mode.min_argument_count argc then selected i else missing_arguments)
    else rest

-- `get_selection_from_args`; `argv` has the program's name first.
unfoldable pub get_selection_from_args : List Bytes → Selection
get_selection_from_args argv =
    if ltb 1 (length argv)
    then select_mode (length argv) (get_or argv 1 []) 0 operation_modes
    else unselected

-- What `main` goes on to: the server, a client's operation on a peer with a file and the optional
-- strings, the usage text, or another exit.
pub data Run : Type 0 where
  runs_server : Run
  runs_client : OperationId → Bytes → Bytes → Option Bytes → Option Bytes → Run
  bad_input exits_missing exits_address exits_operation : Run

-- What `inet_pton` returns for a text: 1, 0 where it is no address, or -1 where the address family is
-- not supported.
pub data Presented : Type 0 where
  converted no_address unsupported_family : Presented

-- networking_common.c, `parse_address`: whether `inet_pton` returns 0 or more.
unfoldable pub parse_address : (Bytes → Presented) → Bytes → Bool
parse_address inet_pton addr_str = elim (inet_pton addr_str) [
  | converted ↦ true
  | no_address ↦ true
  | unsupported_family ↦ false
]

-- `parsed_address` is whether `parse_address` returns true.
unfoldable pub run_client : (Bytes → Bool) → List Bytes → Option OperationId → Run
run_client parsed_address argv none =
    if parsed_address (get_or argv 2 []) then exits_operation else exits_address
run_client parsed_address argv (some op_id) =
    if parsed_address (get_or argv 2 [])
    then runs_client op_id (get_or argv 2 []) (get_or argv 3 []) (get_elem? argv 4)
        (get_elem? argv 5)
    else exits_address

-- The switch over the selection.
unfoldable pub client_operation : ℕ → Option OperationId
client_operation zero = none
client_operation (suc zero) = some operation_send
client_operation (suc (suc zero)) = some operation_receive
client_operation (suc (suc (suc zero))) = some operation_request_delete
client_operation (suc (suc (suc (suc n)))) = none

unfoldable pub run_selection : (Bytes → Bool) → List Bytes → Selection → Run
run_selection parsed_address argv (selected zero) = runs_server
run_selection parsed_address argv (selected (suc i)) =
    if ltb 3 (length argv)
    then run_client parsed_address argv (client_operation (suc i))
    else bad_input
run_selection parsed_address argv unselected = bad_input
run_selection parsed_address argv missing_arguments = exits_missing

-- `main`
unfoldable pub main : (Bytes → Presented) → List Bytes → Run
main inet_pton argv = run_selection (parse_address inet_pton) argv (get_selection_from_args argv)
