-- ===== src/Bank/Tests.antt =====
-- Runs of the ledger and of the collections, and examples of what is proved of them.
use blueballs.Prelude.{String, ◌≡◌, refl, none, some, List, [], ◌∷◌, ◌++◌, ok, err}
use blueballs.Prelude.Int.{ℤ, int_laws, pos, negsuc, ◌+ℤ◌, ◌-ℤ◌}
use blueballs.Prelude.Dict.{Dict, lookup}
use blueballs.Bank.Ledger.{
  Entry, Ledger, Stamp, Posting, insufficient_balance, tally, balance, is_system_account, add_delta,
  collect_deltas, check_deltas, assert_no_overdraft, reduce_amounts, push_rows, row_of, post,
  run_request,
}
use blueballs.Bank.Ledger.Sums.{entry_sum, total}
use blueballs.Bank.Ledger.Solvency.{
  IsSolvent, IsBalanced, balance-post, post-IsSolvent, post-IsBalanced,
}
use blueballs.Bank.Ledger.Requests.{Settles, run_request-Settles}
use blueballs.Bank.Store.{
  Operation, set_row, delete_row, mutate_row, begin, commit, rollback, apply_all,
}
use blueballs.Bank.Store.Rollback.{rollback_restores}
use blueballs.Bank.Store.Commit.{IsInSync, idle, commit-IsInSync, commit-eq-direct}

abbrev stamp : Stamp
stamp = record { txn = "txn_1"; at = "2026-01-01"; command_id = "cmd_1" }

abbrev entry : String → ℤ → Entry
entry account amount = record { account = account; currency = "USD"; amount = amount }

abbrev deposit : List Entry
deposit = entry "ext:bank" (negsuc 99) ∷ entry "acc_1" (pos 100) ∷ []

abbrev payment : List Entry
payment = entry "acc_1" (negsuc 29) ∷ entry "acc_2" (pos 30) ∷ []

abbrev empty_ledger : Ledger
empty_ledger = record { committed = []; staged = none }

abbrev funded : Ledger
funded = record {
  committed =
      row_of stamp none (entry "ext:bank" (negsuc 99))
      ∷ row_of stamp none (entry "acc_1" (pos 100))
      ∷ [];
  staged = none;
}

abbrev after_payment : Ledger
after_payment = record {
  committed =
      funded.committed
      ++ (row_of stamp none (entry "acc_1" (negsuc 29))
          ∷ row_of stamp none (entry "acc_2" (pos 30))
          ∷ []);
  staged = none;
}

funded_by_deposit : post empty_ledger stamp deposit none ≡ ok ("txn_1", funded)
unfolding post assert_no_overdraft collect_deltas add_delta is_system_account check_deltas balance
    tally reduce_amounts push_rows ◌+ℤ◌
funded_by_deposit = refl

paid : post funded stamp payment none ≡ ok ("txn_1", after_payment)
unfolding post assert_no_overdraft collect_deltas add_delta is_system_account check_deltas balance
    tally reduce_amounts push_rows ◌+ℤ◌
paid = refl

-- A customer account cannot pay what it does not have.
overdraft_refused :
    post empty_ledger stamp payment none ≡ err (insufficient_balance "acc_1" "USD" (pos 0) (pos 30))
unfolding post assert_no_overdraft collect_deltas add_delta is_system_account check_deltas balance
    tally reduce_amounts push_rows ◌+ℤ◌ ◌-ℤ◌
overdraft_refused = refl

empty_ledger-IsSolvent : IsSolvent empty_ledger
unfolding balance tally
empty_ledger-IsSolvent a c user = omega int_laws

empty_ledger-IsBalanced : IsBalanced empty_ledger
unfolding total ◌+ℤ◌
empty_ledger-IsBalanced = refl

funded-IsSolvent : IsSolvent funded
funded-IsSolvent =
    post-IsSolvent empty_ledger stamp deposit none "txn_1" empty_ledger-IsSolvent funded_by_deposit

balance-post_example :
    balance after_payment "acc_1" "USD"
    ≡ balance funded "acc_1" "USD" +ℤ entry_sum "acc_1" "USD" payment
balance-post_example = balance-post funded stamp payment none "txn_1" paid "acc_1" "USD"

post-IsSolvent_example : IsSolvent after_payment
post-IsSolvent_example = post-IsSolvent funded stamp payment none "txn_1" funded-IsSolvent paid

post-IsBalanced_example : IsBalanced funded
post-IsBalanced_example =
    post-IsBalanced empty_ledger stamp deposit none "txn_1" empty_ledger-IsBalanced
      funded_by_deposit

abbrev postings : List Posting
postings =
    record { stamp = stamp; entries = payment; memo = none }
    ∷ record { stamp = stamp; entries = payment; memo = some "twice" }
    ∷ []

run_request-Settles_example : Settles funded postings (run_request funded postings)
run_request-Settles_example = run_request-Settles funded postings refl

-- The first posting is staged before the second one throws, and is dropped with the request.
second_posting_fails :
    run_request funded (
      record { stamp = stamp; entries = payment; memo = none }
      ∷ record {
        stamp = stamp;
        entries = entry "acc_1" (negsuc 199) ∷ entry "acc_2" (pos 200) ∷ [];
        memo = none;
      }
      ∷ [])
    ≡ (some (insufficient_balance "acc_1" "USD" (pos 70) (pos 200)), funded)
unfolding run_request assert_no_overdraft collect_deltas add_delta is_system_account check_deltas
    balance tally reduce_amounts push_rows post ◌+ℤ◌ ◌-ℤ◌
second_posting_fails = refl

abbrev rows : Dict String
rows = ("a", "1") ∷ ("b", "2") ∷ []

abbrev writes : List (Operation String)
writes = delete_row "a" ∷ set_row "c" "3" ∷ mutate_row "b" (λ v. "4") ∷ set_row "a" "5" ∷ []

rollback_restores_example :
    let c' = rollback (apply_all (begin (idle rows rows)) writes) in
    ((id : String) → lookup id c'.cache ≡ lookup id rows) × (c'.table ≡ rows) × (c'.scope ≡ none)
rollback_restores_example = rollback_restores (idle rows rows) writes

commit-IsInSync_example : IsInSync (commit (apply_all (begin (idle rows rows)) writes))
commit-IsInSync_example = commit-IsInSync (idle rows rows) writes (λ id. refl)

commit-eq-direct_example :
    lookup "a" (commit (apply_all (begin (idle rows rows)) writes)).table
    ≡ lookup "a" (apply_all (idle rows rows) writes).table
commit-eq-direct_example = commit-eq-direct rows rows writes (λ id. refl) "a"
