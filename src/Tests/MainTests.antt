-- ===== src/Tests/MainTests.antt =====
-- Command lines.
use rted_tftp.Base.{◌≡◌, ◌≢◌, refl, List, [], ◌∷◌, none, Bytes, codes}
use rted_tftp.Operation.{operation_send}
use rted_tftp.Main.{
  runs_client, exits_missing, exits_address, is_strncmp_equal, select_mode, get_selection_from_args,
  run_client, client_operation, run_selection, main, converted, no_address, parse_address,
}
use rted_tftp.Main.Dispatch.{IsDispatched, main-IsDispatched}
use rted_tftp.Main.Addresses.{main-takes_any_address}

abbrev write_line : List Bytes
write_line = codes "stftpu" ∷ codes "write" ∷ codes "10.0.0.1" ∷ codes "a.txt" ∷ []

runs_write :
    main (λ address. converted) write_line
    ≡ runs_client operation_send (codes "10.0.0.1") (codes "a.txt") none none
unfolding main get_selection_from_args select_mode is_strncmp_equal run_selection run_client
    client_operation parse_address
runs_write = refl

runs_missing : main (λ address. converted) (codes "stftpu" ∷ codes "read" ∷ []) ≡ exits_missing
unfolding main get_selection_from_args select_mode is_strncmp_equal run_selection run_client
    client_operation
runs_missing = refl

main-IsDispatched_example : IsDispatched write_line (main (λ address. converted) write_line)
main-IsDispatched_example = main-IsDispatched (λ address. converted) write_line

-- No text is an address here.
main-takes_any_address_example : main (λ address. no_address) write_line ≢ exits_address
main-takes_any_address_example =
    main-takes_any_address (λ address. no_address) write_line (λ address e. absurd cc)
