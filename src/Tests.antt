-- ===== src/Tests.antt =====
-- The theorems at concrete states of the sample service: redemption here, the rest in the children.
pub mod Refunds
pub mod Endpoints
pub mod Subsidies
pub mod Batches
pub mod Provisioning
pub mod Listings
pub mod Fulfilling
pub mod Ledger
pub mod Machine
pub mod ContentView
use edx_enterprise_subsidy.Common.{
  ℕ, ◌+◌, ◌<◌, ◌≤◌, ◌*◌, ◌≡◌, ◌≢◌, ◌↔◌, ◌⊎◌, inl, inr, refl, String, Bool, true, false, Option,
  none, some, List, [], ◌∷◌, ◌++◌, All, arith, any, find_row, sym, ap, ◌∙◌,
}
use edx_enterprise_subsidy.Common.Int.{ℤ, neg, pos, negsuc}
use edx_enterprise_subsidy.Schema.Ledger.{
  Transaction, NewTransaction, TransactionState, Reversal, ReversalKey, Metadata,
}
use edx_enterprise_subsidy.Schema.Subsidy.{Subsidy}
use edx_enterprise_subsidy.Schema.Catalog.{DateValue}
use edx_enterprise_subsidy.Schema.Remote.{Request, Event, Unenrollment, EnterpriseCourseEnrollment}
use edx_enterprise_subsidy.Service.{Env, World, Result, ok, err, Exec, Exception}
use edx_enterprise_subsidy.Service.Quiet.{Quiet, SameTables}
use edx_enterprise_subsidy.Subsidy.{is_reversed}
use edx_enterprise_subsidy.ContentMetadata.{
  cached_content, client_get_content_metadata, client_get_content_metadata_for_customer,
  get_content_metadata, get_content_metadata_for_customer, get_content_summary, get_course_price,
  get_geag_variant_id, to_cents, price_for_content_fallback, price_for_content as content_price,
  get_course_run, get_geag_variant_id_for_content, enroll_by_date_for_content,
  summary_data_for_content,
}
use edx_enterprise_subsidy.ApiClient.{
  get_enterprise_customer_data, subsidy_of, bulk_enroll_enterprise_learners, enroll,
  client_cancel_fulfillment, get_user_data, best_effort_user_data,
}
use edx_enterprise_subsidy.Fulfillment.{
  validate_fields, get_geag_transaction_price, variant_id_of, cached_customer_data,
  customer_data_of, validate, allocation_payload, create_allocation_payload,
  save_fulfillment_reference, can_fulfill, fulfill_in_geag, fulfill, cancel_external,
}
use edx_enterprise_subsidy.Subsidy.{
  validate_requested_price, content_price_for, email_for_learner, metadata_summary_for_content,
  price_for_content, current_balance, is_redeemable, all_transactions,
  transactions_for_learner_and_content, get_committed_transaction_no_reversal,
}
use edx_enterprise_subsidy.Redemption.{
  create_redemption, attempt_redemption, redeem, redeem_at_price, fulfill_externally, with_key,
  serialize_transaction, commit_transaction, rollback_transaction, create_transaction,
  enroll_and_commit, new_redemption,
}
use edx_enterprise_subsidy.Redemption.Settled.{Settled, create_redemption_settles, row}
use edx_enterprise_subsidy.Redemption.Linked.{
  IsCommitted, attempt_redemption-IsCommitted, attempt_redemption_cancels,
}
use edx_enterprise_subsidy.Redemption.Keys.{KeysOf}
use edx_enterprise_subsidy.Tests.Ledger.{sample-GetsOrCreates}
use edx_enterprise_subsidy.Redemption.Idempotence.{redeem_twice}
use edx_enterprise_subsidy.Redemption.Charge.{Charge, redeem-Charge}
use edx_enterprise_subsidy.Samples.{
  run_key, sample_subsidy, sample_env, refusing_env, sample_world, sample_new, sample_pending,
  sample_committed, sample_reference, committed_world, made, sample_create, sample_unenrollment,
}

abbrev keyed : Transaction
keyed = made (with_key sample_env sample_new none sample_world) []

create_redemption_settles_example :
    Settled 100
      (record sample_world {
        transactions = keyed ∷ [];
        events = Event.transaction_created (serialize_transaction keyed []) ∷ [];
      })
      (create_redemption sample_env 7 run_key sample_new none sample_world)
create_redemption_settles_example =
    create_redemption_settles sample_env 7 run_key sample_new none keyed (keyed ∷ []) sample_world
      refl

abbrev paid : Transaction
paid = record keyed {
  state = TransactionState.committed;
  fulfillment_identifier = some "f1";
  parent_content_key = some run_key;
  metadata = [];
}

abbrev run : Exec (Option Transaction × Bool)
run = redeem sample_env sample_subsidy 7 run_key 31 none none none

abbrev after_run : World
after_run = (run sample_world).1

redeemed : run sample_world ≡ (ok (some paid, true), after_run)
unfolding redeem redeem_at_price new_redemption create_redemption create_transaction
    attempt_redemption fulfill_externally enroll_and_commit commit_transaction is_redeemable
    current_balance price_for_content metadata_summary_for_content email_for_learner
    content_price_for get_committed_transaction_no_reversal transactions_for_learner_and_content
    all_transactions can_fulfill fulfill variant_id_of validate create_allocation_payload
    fulfill_in_geag save_fulfillment_reference enroll get_course_price get_content_summary
    get_content_metadata_for_customer client_get_content_metadata_for_customer cached_content
    best_effort_user_data get_user_data get_geag_variant_id content_price summary_data_for_content
    get_course_run to_cents price_for_content_fallback get_geag_variant_id_for_content
    enroll_by_date_for_content subsidy_of bulk_enroll_enterprise_learners customer_data_of
    validate_fields rollback_transaction neg
redeemed = refl

no_row : (v : World) (t : Transaction) → v.transactions ≡ [] → row t.uuid v ≡ some t → ⊥
unfolding find_row
no_row v t empty stored =
    let none_there = sym (ap (find_row (λ (x : Transaction). x.uuid) t.uuid) empty) ∙ stored in cc

first-KeysOf : KeysOf sample_env sample_subsidy 7 run_key none sample_world
first-KeysOf v n same on_ledger for_user for_key t stored ledger key =
    absurd (no_row v t same.transactions stored)

redeem_twice_example :
    (x : Transaction) × (redeem sample_env sample_subsidy 7 run_key 32
        (some "again")
        (some (pos 9000))
        none
        after_run
      ≡ (ok (some x, false), after_run))
redeem_twice_example =
    redeem_twice sample_env sample_subsidy 7 run_key 31 32 none (some "again") none
      (some (pos 9000)) none none sample_world after_run paid sample-GetsOrCreates tt first-KeysOf
      redeemed

redeem-Charge_example :
    (t : Transaction) × Charge sample_env sample_subsidy run_key none sample_world t
    × (t.uuid ≡ 100)
redeem-Charge_example =
    redeem-Charge sample_env sample_subsidy 7 run_key 31 none none none sample_world after_run paid
      redeemed

abbrev attempt : Result Transaction × World
attempt = attempt_redemption sample_env 7 run_key sample_pending sample_world

attempt_redemption-IsCommitted_example :
    IsCommitted sample_env 7 run_key sample_pending sample_committed attempt.1
unfolding redeem redeem_at_price new_redemption create_redemption create_transaction
    attempt_redemption fulfill_externally enroll_and_commit commit_transaction is_redeemable
    current_balance price_for_content metadata_summary_for_content email_for_learner
    content_price_for get_committed_transaction_no_reversal transactions_for_learner_and_content
    all_transactions can_fulfill fulfill variant_id_of validate create_allocation_payload
    fulfill_in_geag save_fulfillment_reference enroll get_course_price get_content_summary
    get_content_metadata_for_customer client_get_content_metadata_for_customer cached_content
    best_effort_user_data get_user_data get_geag_variant_id content_price summary_data_for_content
    get_course_run to_cents price_for_content_fallback get_geag_variant_id_for_content
    enroll_by_date_for_content subsidy_of bulk_enroll_enterprise_learners customer_data_of
    validate_fields rollback_transaction neg
attempt_redemption-IsCommitted_example =
    attempt_redemption-IsCommitted sample_env 7 run_key sample_pending sample_world sample_committed
      refl

attempt_redemption_cancels_example :
    (sent : List Request) × ((attempt_redemption refusing_env 7 run_key sample_pending
        sample_world).1.requests
      ≡ Request.cancel_allocation "order-1" ∷ sent)
unfolding redeem redeem_at_price new_redemption create_redemption create_transaction
    attempt_redemption fulfill_externally enroll_and_commit commit_transaction is_redeemable
    current_balance price_for_content metadata_summary_for_content email_for_learner
    content_price_for get_committed_transaction_no_reversal transactions_for_learner_and_content
    all_transactions can_fulfill fulfill variant_id_of validate create_allocation_payload
    fulfill_in_geag save_fulfillment_reference enroll get_course_price get_content_summary
    get_content_metadata_for_customer client_get_content_metadata_for_customer cached_content
    best_effort_user_data get_user_data get_geag_variant_id content_price summary_data_for_content
    get_course_run to_cents price_for_content_fallback get_geag_variant_id_for_content
    enroll_by_date_for_content subsidy_of bulk_enroll_enterprise_learners customer_data_of
    validate_fields rollback_transaction neg get_geag_transaction_price allocation_payload
    cached_customer_data get_enterprise_customer_data
attempt_redemption_cancels_example =
    attempt_redemption_cancels refusing_env 7 run_key sample_pending sample_world sample_reference
      (Exception.http_error 500) refl refl
