-- ===== src/Tests/Batches.antt =====
-- The theorems on batches and on the backpopulate commands at concrete states.
use edx_enterprise_subsidy.Common.{◌≡◌, refl, Bool, true, false, none, some, [], ◌∷◌, arith}
use edx_enterprise_subsidy.Schema.Ledger.{Transaction}
use edx_enterprise_subsidy.Service.{World, ok, Exec}
use edx_enterprise_subsidy.Service.Asking.{SameCommands}
use edx_enterprise_subsidy.Service.Quiet.{SameTables}
use edx_enterprise_subsidy.Batches.{for_each, order_by_pk, selected, for_batches}
use edx_enterprise_subsidy.Batches.Complete.{for_batches-for_each}
use edx_enterprise_subsidy.Backpopulate.{
  txn_filter, incomplete_parent_content_key, process_parent_content_key, _get_parent_content_key,
  backpopulate_transaction_email_and_title, backpopulate_transaction_parent_content_key,
}
use edx_enterprise_subsidy.Backpopulate.Process.{process_parent_content_key-Saves}
use edx_enterprise_subsidy.Backpopulate.ParentKey.{_get_parent_content_key_lem}
use edx_enterprise_subsidy.Backpopulate.Commands.{
  uuid_of, transactions_of, step_keeps_later, backpopulate-dry_run,
}
use edx_enterprise_subsidy.Samples.{
  sample_env, sample_subsidy, sample_content, sample_committed, committed_world,
}

-- three rows, out of the order of their keys
abbrev three_rows : World
three_rows = record committed_world {
  transactions =
      record sample_committed { uuid = 102 }
      ∷ sample_committed
      ∷ record sample_committed { uuid = 101 }
      ∷ [];
}

abbrev process : Bool → Transaction → Exec (Unit {0})
process dry_run = process_parent_content_key sample_env dry_run sample_subsidy

abbrev wanted : Transaction → Bool
wanted = txn_filter incomplete_parent_content_key sample_subsidy

for_batches-for_each_example :
    for_batches uuid_of transactions_of wanted 2 (process false) three_rows
    ≡ for_each
        (process false)
        (order_by_pk uuid_of (selected uuid_of transactions_of wanted none three_rows))
        three_rows
for_batches-for_each_example =
    for_batches-for_each uuid_of transactions_of wanted (process false) 1 three_rows
      (λ t v k.
        step_keeps_later process (process_parent_content_key-Saves sample_env sample_subsidy) false
          wanted t v k)
      (omega arith)

abbrev after_emails : World
after_emails = (backpopulate_transaction_email_and_title sample_env true true three_rows).1

abbrev after_parents : World
after_parents = (backpopulate_transaction_parent_content_key sample_env true true three_rows).1

backpopulate-dry_run_example :
    SameTables three_rows after_emails
    × SameCommands three_rows after_emails
    × SameTables three_rows after_parents
    × SameCommands three_rows after_parents
backpopulate-dry_run_example = backpopulate-dry_run sample_env true three_rows

_get_parent_content_key_lem_example : _get_parent_content_key sample_content ≡ ok (some "edX+Demo")
_get_parent_content_key_lem_example =
    _get_parent_content_key_lem sample_content "courserun" "edX+Demo"
      (refl, (refl, (refl, (refl, (refl, (refl, (refl, (refl, (refl, tt))))))))) refl
