-- ===== src/Main/Addresses.antt =====
-- The check of the peer's address.
use rted_tftp.Base.{
  zero, suc, ◌≡◌, ◌≢◌, refl, Bool, true, List, [], Option, none, some, length, get_or, Bytes,
  Bool-cases, inl, inr, ltb,
}
use rted_tftp.Operation.{OperationId}
use rted_tftp.Main.{
  Selection, selected, unselected, missing_arguments, get_selection_from_args, exits_address,
  Presented, converted, no_address, unsupported_family, parse_address, run_client, client_operation,
  run_selection, main,
}

parsed_any :
    (inet_pton : Bytes → Presented) (addr_str : Bytes)
    → inet_pton addr_str ≢ unsupported_family
    → parse_address inet_pton addr_str ≡ true
unfolding parse_address
parsed_any inet_pton addr_str s = by_result (inet_pton addr_str) refl
  where
    by_result : (r : Presented) → inet_pton addr_str ≡ r → parse_address inet_pton addr_str ≡ true
    by_result converted e = rw (parse_address, e) refl
    by_result no_address e = rw (parse_address, e) refl
    by_result unsupported_family e = absurd (s e)

module _ (parsed_address : Bytes → Bool) (argv : List Bytes)
    (any : parsed_address (get_or argv 2 []) ≡ true) where
  client-takes_any : (o : Option OperationId) → run_client parsed_address argv o ≢ exits_address
  unfolding run_client
  client-takes_any none = rw any (λ e. cc)
  client-takes_any (some op_id) = rw any (λ e. cc)

  selection-takes_any : (r : Selection) → run_selection parsed_address argv r ≢ exits_address
  unfolding run_selection
  selection-takes_any (selected zero) = λ e. cc
  selection-takes_any (selected (suc i)) = elim (Bool-cases (ltb 3 (length argv))) [
    | inl e ↦ rw e (client-takes_any (client_operation (suc i)))
    | inr e ↦ rw e (λ f. cc)
  ]
  selection-takes_any unselected = λ e. cc
  selection-takes_any missing_arguments = λ e. cc

-- Where `inet_pton` never returns -1, as it is documented for AF_INET, `main` never stops at the peer's
-- address, whatever the arguments are: a text that is no address, for which `inet_pton` returns 0, is
-- taken as well.
pub main-takes_any_address :
    (inet_pton : Bytes → Presented) (argv : List Bytes)
    → ((addr_str : Bytes) → inet_pton addr_str ≢ unsupported_family)
    → main inet_pton argv ≢ exits_address
unfolding main
main-takes_any_address inet_pton argv supported =
    selection-takes_any (parse_address inet_pton) argv
      (parsed_any inet_pton (get_or argv 2 []) (supported (get_or argv 2 [])))
      (get_selection_from_args argv)
