-- ===== src/Whitelist/Tests.antt =====
-- Runs of the whitelist manager, and its theorems at concrete inputs.
use aquatiq_root.Common.{◌+◌, Text, lit, text_eq, ◌≡◌, refl, true, none, some, [], ◌∷◌, ◌↔◌, arith}
use aquatiq_root.Net.{parse_ip, parse_cidr, contains}
use aquatiq_root.Whitelist.Types.{
  IpEntry, Manager, write_failed, validate_ip_or_cidr, ip_matches, is_listed, remove_ip,
  is_blacklisted,
}
use aquatiq_root.Whitelist.Traefik.{
  is_past, source_range, write_file, update_traefik_config, new_manager,
}
use aquatiq_root.Whitelist.Operations.{
  log_action, commit_add, add_to_whitelist, commit_remove, remove_from_whitelist, is_whitelisted,
  is_allowed, cleanup_expired,
}
use aquatiq_root.Whitelist.Update.{SameLists}
use aquatiq_root.Whitelist.Listed.{
  IsWellFormed, add_white, remove_white, add_black, ask, cleanup, run,
}
use aquatiq_root.Whitelist.Invariant.{run-IsWellFormed}
use aquatiq_root.Whitelist.Abstract.{Runs, lists}
use aquatiq_root.Whitelist.Refinement.{calls, calls-Runs}
use aquatiq_root.Whitelist.Decision.{Admissible, is_allowed_iff}
use aquatiq_root.Whitelist.Contract.{
  add_to_whitelist_error_unchanged, IsAdded, IsRemoved, add_to_whitelist-IsAdded,
  remove_from_whitelist-IsRemoved,
}
use aquatiq_root.Whitelist.Expiry.{
  cleanup_expired-live, is_allowed-cleanup_expired, restart_forgets_expiry,
}
use aquatiq_root.Whitelist.Sample.{
  one_range, at_five, writes_work, writes_fail, range, address, empty,
}

abbrev entry : Text → IpEntry
entry ip = record { ip = ip; description = []; added_at = 5; added_by = []; expires_at = some 9 }

abbrev one : Manager
one = record empty { whitelist = entry range ∷ [] }

abbrev two : Manager
two = record empty { whitelist = entry range ∷ entry address ∷ [] }

adds : (add_to_whitelist one_range at_five writes_work range [] [] (some 9) empty).0 ≡ none
unfolding add_to_whitelist commit_add update_traefik_config source_range is_past write_file
    validate_ip_or_cidr is_listed parse_cidr text_eq lit log_action
adds = refl

no_room :
    (add_to_whitelist one_range at_five writes_fail range [] [] none empty).0 ≡ some write_failed
unfolding add_to_whitelist commit_add update_traefik_config source_range is_past write_file
    validate_ip_or_cidr is_listed parse_cidr text_eq lit log_action
no_room = refl

removes : (remove_from_whitelist one_range at_five writes_work address [] two).0 ≡ none
unfolding remove_from_whitelist commit_remove update_traefik_config source_range is_past write_file
    remove_ip text_eq lit log_action
removes = refl

removes_unsaved :
    (remove_from_whitelist one_range at_five writes_fail address [] two).0 ≡ some write_failed
unfolding remove_from_whitelist commit_remove update_traefik_config source_range is_past write_file
    remove_ip text_eq lit log_action
removes_unsaved = refl

allows : (is_allowed at_five address one).0 ≡ true
unfolding is_allowed is_blacklisted is_whitelisted is_past ip_matches parse_cidr parse_ip contains
allows = refl

address_parses : parse_ip address ≡ some 0xffff01020304
unfolding parse_ip
address_parses = refl

range_matches : ip_matches 0xffff01020304 range ≡ true
unfolding ip_matches parse_cidr contains
range_matches = refl

run-IsWellFormed_example : IsWellFormed (
    run one_range at_five writes_work
      (add_white range [] [] none
        ∷ add_black address [] []
        ∷ ask address
        ∷ cleanup
        ∷ remove_white range []
        ∷ [])
      empty)
run-IsWellFormed_example =
    run-IsWellFormed one_range at_five writes_work
      (add_white range [] [] none
        ∷ add_black address [] []
        ∷ ask address
        ∷ cleanup
        ∷ remove_white range []
        ∷ [])
      empty (record { white = tt; black = tt })

calls-Runs_example :
    let os =
      add_white range [] [] (some 9)
      ∷ ask address
      ∷ add_black address [] []
      ∷ ask address
      ∷ remove_white range []
      ∷ cleanup
      ∷ [] in
    Runs
      (calls one_range at_five writes_work os empty)
      (lists empty)
      (lists (run one_range at_five writes_work os empty))
calls-Runs_example =
    calls-Runs one_range at_five writes_work (λ k. omega arith)
      (add_white range [] [] (some 9)
        ∷ ask address
        ∷ add_black address [] []
        ∷ ask address
        ∷ remove_white range []
        ∷ cleanup
        ∷ [])
      empty (record { white = tt; black = tt })

is_allowed_iff_example : ((is_allowed at_five address one).0 ≡ true) ↔ Admissible address 5 one
is_allowed_iff_example = is_allowed_iff at_five 5 (λ k. refl) address one

add_to_whitelist_error_unchanged_example :
    SameLists empty (add_to_whitelist one_range at_five writes_fail range [] [] none empty).1
add_to_whitelist_error_unchanged_example =
    add_to_whitelist_error_unchanged one_range at_five writes_fail range [] [] none empty no_room

add_to_whitelist-IsAdded_example :
    IsAdded one_range at_five writes_work 5
      (λ k. refl)
      (entry range)
      empty
      (add_to_whitelist one_range at_five writes_work range [] [] (some 9) empty).1
add_to_whitelist-IsAdded_example =
    add_to_whitelist-IsAdded one_range at_five writes_work 5 (λ k. refl) range [] [] (some 9) empty
      adds

remove_from_whitelist-IsRemoved_example :
    IsRemoved one_range at_five writes_work 5
      (λ k. refl)
      address
      two
      (remove_from_whitelist one_range at_five writes_work address [] two).1
remove_from_whitelist-IsRemoved_example =
    remove_from_whitelist-IsRemoved one_range at_five writes_work 5 (λ k. refl) address [] two
      removes

cleanup_expired-live_example :
    ((cleanup_expired one_range at_five writes_work two).1.whitelist ≡ two.whitelist)
    × ((cleanup_expired one_range at_five writes_work two).0 + 2 ≡ 2)
    × ((cleanup_expired one_range at_five writes_work two).1.blacklist ≡ [])
cleanup_expired-live_example = cleanup_expired-live one_range at_five writes_work two

is_allowed-cleanup_expired_example :
    (is_allowed at_five address (cleanup_expired one_range at_five writes_work two).1).0
    ≡ (is_allowed at_five address two).0
is_allowed-cleanup_expired_example =
    is_allowed-cleanup_expired at_five 5 (λ k. refl) one_range writes_work address two

restart_forgets_expiry_example :
    (is_allowed
      (λ k. 1000)
      address
      (new_manager one_range
        (λ k. 1000)
        none
        (add_to_whitelist one_range at_five writes_work range [] [] (some 9) empty).1.file
        0
        0).1).0
    ≡ true
restart_forgets_expiry_example =
    restart_forgets_expiry one_range at_five writes_work 5 (λ k. refl) range [] [] address 9 empty
      0xffff01020304 (λ k. 1000) none adds (omega arith) address_parses range_matches
