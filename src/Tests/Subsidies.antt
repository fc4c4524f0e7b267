-- ===== src/Tests/Subsidies.antt =====
-- The theorems on the lifecycle of subsidies at concrete states.
use edx_enterprise_subsidy.Common.{ℕ, ◌≡◌, refl, true, false, none, some, List, save_row}
use edx_enterprise_subsidy.Schema.Ledger.{Deposit, Transaction}
use edx_enterprise_subsidy.Schema.Subsidy.{Subsidy}
use edx_enterprise_subsidy.Service.{World, Result, ok}
use edx_enterprise_subsidy.Lifecycle.{
  clean, subsidy_pre_save, save_subsidy, get_or_create_learner_credit_subsidy,
}
use edx_enterprise_subsidy.Lifecycle.Unique.{UniqueReferences, save_subsidy-UniqueReferences}
use edx_enterprise_subsidy.Lifecycle.GetOrCreate.{get_or_create_again}
use edx_enterprise_subsidy.Samples.{sample_subsidy, sample_world}

-- ledger 12 for every subsidy, with no initial deposit
abbrev ledger_12 : Subsidy → World → Result (ℕ × List Transaction × List Deposit)
ledger_12 s w = ok (12, w.transactions, w.deposits)

abbrev new_subsidy : Subsidy
new_subsidy = record sample_subsidy { uuid = 2; ledger = none; reference_id = some "opp-2" }

save_subsidy-UniqueReferences_example :
    UniqueReferences (save_subsidy ledger_12 true new_subsidy sample_world).1.subsidies
save_subsidy-UniqueReferences_example =
    save_subsidy-UniqueReferences ledger_12 true new_subsidy sample_world ((refl, tt), tt)

abbrev created_world : World
created_world = (get_or_create_learner_credit_subsidy ledger_12 new_subsidy sample_world).1

abbrev created_subsidy : Subsidy
created_subsidy = record new_subsidy { ledger = some 12 }

get_or_create_again_example :
    get_or_create_learner_credit_subsidy ledger_12 (record new_subsidy { uuid = 3 }) created_world
    ≡ (ok (created_subsidy, false), created_world)
unfolding get_or_create_learner_credit_subsidy save_subsidy clean subsidy_pre_save save_row
get_or_create_again_example =
    get_or_create_again ledger_12 new_subsidy (record new_subsidy { uuid = 3 }) sample_world
      created_world created_subsidy refl refl refl refl refl
