-- ===== src/Tests/Machine.antt =====
-- The theorem on the abstract machine of redemptions at a concrete state: a redemption that has failed
-- before is asked for again, under the same key.
use edx_enterprise_subsidy.Common.{
  ◌≡◌, sym, ap, ◌∙◌, none, some, [], ◌∷◌, find_row, any, ◌==◌, arith,
}
use edx_enterprise_subsidy.Schema.Ledger.{Transaction, Reversal, TransactionState}
use edx_enterprise_subsidy.Service.{World}
use edx_enterprise_subsidy.Redemption.{redeem}
use edx_enterprise_subsidy.Redemption.Keys.{KeysOf}
use edx_enterprise_subsidy.Redemption.Steps.{Steps, redeem-Steps}
use edx_enterprise_subsidy.Samples.{
  run_key, sample_env, sample_subsidy, sample_world, sample_pending,
}
use edx_enterprise_subsidy.Tests.Ledger.{sample-GetsOrCreates}

abbrev failed_before : Transaction
failed_before = record sample_pending { state = TransactionState.failed; idempotency_key = "key-1" }

abbrev retry_world : World
retry_world = record sample_world { transactions = failed_before ∷ [] }

only_row :
    (t : Transaction)
    → find_row (λ (x : Transaction). x.uuid) t.uuid (failed_before ∷ []) ≡ some t
    → failed_before ≡ t
unfolding find_row
only_row t h = ground (arith, h)

retry-KeysOf : KeysOf sample_env sample_subsidy 7 run_key (some "key-1") retry_world
retry-KeysOf v n same on_ledger for_user for_key t stored ledger key =
    let is =
      only_row t
        (sym (ap (find_row (λ (x : Transaction). x.uuid) t.uuid) same.transactions) ∙ stored) in
    (
      sym (ap (λ (x : Transaction). x.lms_user_id) is) ∙ sym for_user,
      sym (ap (λ (x : Transaction). x.content_key) is) ∙ sym for_key,
      ap (any (λ (r : Reversal). r.transaction_uuid == t.uuid)) same.reversals,
    )

redeem-Steps_example :
    Steps sample_subsidy 7 run_key retry_world
      (redeem sample_env sample_subsidy 7 run_key 31 (some "key-1") none none retry_world)
redeem-Steps_example =
    redeem-Steps sample_subsidy 7 run_key sample_env 31 (some "key-1") none none retry_world
      sample-GetsOrCreates retry-KeysOf (tt, tt)
