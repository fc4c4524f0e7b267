-- ===== src/Tests/Refunds.antt =====
-- The theorems on refunds, reversals, access and the endpoints at concrete states.
use edx_enterprise_subsidy.Common.{
  ◌+◌, ◌<◌, ◌≡◌, ◌↔◌, ◌⊎◌, refl, true, false, some, List, [], ◌∷◌, arith, find_row,
}
use edx_enterprise_subsidy.Schema.Ledger.{Transaction, TransactionState, Reversal, ReversalKey}
use edx_enterprise_subsidy.Schema.Catalog.{DateValue}
use edx_enterprise_subsidy.Schema.Remote.{Request}
use edx_enterprise_subsidy.Service.{Exec, World, Result, ok, err}
use edx_enterprise_subsidy.Service.Quiet.{Quiet, SameTables}
use edx_enterprise_subsidy.ContentMetadata.{
  cached_content, client_get_content_metadata, client_get_content_metadata_for_customer,
  get_content_metadata, get_content_metadata_for_customer,
}
use edx_enterprise_subsidy.ContentMetadata.Caching.{get_content_metadata_for_customer_again}
use edx_enterprise_subsidy.ApiClient.{client_cancel_fulfillment, fetch_recent_unenrollments}
use edx_enterprise_subsidy.Fulfillment.{cancel_external}
use edx_enterprise_subsidy.Unenrollment.{
  generate_transaction_reversal_idempotency_key, unenrollment_can_be_refunded, course_start_date,
  normalize_to_datetime, cancel_references, cancel_transaction_external_fulfillment,
  cancel_transaction_fulfillment, listen_for_transaction_reversal, reverse_transaction, load,
  handle_lc_enrollment_revoked, reversible,
}
use edx_enterprise_subsidy.Unenrollment.Refund.{unenrollment_can_be_refunded_iff}
use edx_enterprise_subsidy.Unenrollment.Cancellation.{cancel_transaction_external_fulfillment-ok}
use edx_enterprise_subsidy.Unenrollment.Revocation.{handle_lc_enrollment_revoked_blocked, related}
use edx_enterprise_subsidy.Reversals.{
  reverse_if_refundable, handle_reversing_enterprise_course_unenrollment, process_unenrollments,
  write_reversals_from_enterprise_unenrollments,
}
use edx_enterprise_subsidy.Service.Asking.{Asking}
use edx_enterprise_subsidy.Reversals.Grown.{WritesOne, Grown}
use edx_enterprise_subsidy.Reversals.Written.{write_reversals_counts}
use edx_enterprise_subsidy.Reversals.Again.{handle_after_reversal}
use edx_enterprise_subsidy.Reversals.DryRun.{write_reversals-dry_run}
use edx_enterprise_subsidy.Samples.{
  run_key, sample_env, sample_content, sample_world, sample_committed, reversal_of, committed_world,
  sample_unenrollment, answer_reversed,
}

abbrev reversed_world : World
reversed_world = record committed_world {
  reversals = reversal_of sample_committed (ReversalKey.other "by hand") committed_world ∷ [];
}

already_reversed :
    (t : Transaction)
    → reversible reversed_world (related sample_unenrollment reversed_world) ≡ some t
    → ⊥
unfolding find_row
already_reversed t h = cc

handle_lc_enrollment_revoked_blocked_example :
    SameTables reversed_world
      (handle_lc_enrollment_revoked sample_env true sample_unenrollment reversed_world).1
handle_lc_enrollment_revoked_blocked_example =
    handle_lc_enrollment_revoked_blocked sample_env sample_unenrollment reversed_world true
      (λ eligible. already_reversed eligible.t eligible.is_reversible)

unenrollment_can_be_refunded_iff_example :
    (unenrollment_can_be_refunded sample_env sample_content
        sample_unenrollment.enterprise_course_enrollment
      ≡ ok true)
    ↔ ((2000 < 1000 + 1209600) ⊎ (2000 < 5000000 + 1209600))
unfolding course_start_date normalize_to_datetime
unenrollment_can_be_refunded_iff_example =
    unenrollment_can_be_refunded_iff sample_env sample_content
      sample_unenrollment.enterprise_course_enrollment (DateValue.datetime 5000000) 5000000 1000
      2000 refl refl refl refl

abbrev cancelled_world : World
cancelled_world = record committed_world { requests = Request.cancel_allocation "order-1" ∷ [] }

cancel_transaction_external_fulfillment-ok_example :
    (sample_committed.state ≡ TransactionState.committed)
    × (cancelled_world.requests ≡ Request.cancel_allocation "order-1" ∷ [])
    × (true ≡ true)
unfolding cancel_transaction_external_fulfillment cancel_references cancel_external
cancel_transaction_external_fulfillment-ok_example =
    cancel_transaction_external_fulfillment-ok sample_env sample_committed committed_world
      cancelled_world true refl

abbrev fetched_world : World
fetched_world = (get_content_metadata_for_customer sample_env 21 run_key sample_world).1

get_content_metadata_for_customer_again_example :
    get_content_metadata_for_customer sample_env 21 run_key fetched_world
    ≡ (ok sample_content, fetched_world)
unfolding get_content_metadata_for_customer cached_content client_get_content_metadata_for_customer
get_content_metadata_for_customer_again_example =
    get_content_metadata_for_customer_again sample_env 21 run_key sample_world sample_content refl
      refl refl

answered :
    (t : Transaction) (r s : Reversal) (before : List Reversal) (x : Result (Unit {0}) × World)
    (w' : World)
    → r.transaction_uuid ≡ t.uuid
    → answer_reversed r before x ≡ (ok s, w')
    → (w'.reversals ≡ s ∷ before) × (s.transaction_uuid ≡ t.uuid)
answered t r s before (ok _, w) w' e h = ground arith
answered t r s before (err x, w) w' e h = cc

writes_one : WritesOne sample_env
writes_one = record {
  writes = λ t key r w w' fresh h.
      let new = reversal_of t key w in
      answered t new r w.reversals
        (listen_for_transaction_reversal sample_env new
          (record w { reversals = new ∷ w.reversals }))
        w' refl h;
}

abbrev written_world : World
written_world = (write_reversals_from_enterprise_unenrollments sample_env false committed_world).1

write_reversals_counts_example : Grown committed_world 1 written_world
unfolding write_reversals_from_enterprise_unenrollments process_unenrollments
    handle_reversing_enterprise_course_unenrollment reverse_if_refundable fetch_recent_unenrollments
    find_row get_content_metadata cached_content client_get_content_metadata
    unenrollment_can_be_refunded course_start_date normalize_to_datetime
    cancel_transaction_external_fulfillment cancel_references cancel_external reverse_transaction
    listen_for_transaction_reversal load cancel_transaction_fulfillment client_cancel_fulfillment
write_reversals_counts_example =
    write_reversals_counts sample_env writes_one false committed_world written_world 1 refl

write_reversals-dry_run_example :
    Quiet (write_reversals_from_enterprise_unenrollments sample_env true)
    × Asking (write_reversals_from_enterprise_unenrollments sample_env true)
write_reversals-dry_run_example = write_reversals-dry_run sample_env

abbrev reverse_sample : Exec Reversal
reverse_sample = reverse_transaction sample_env sample_committed (some (DateValue.datetime 2000))

abbrev sample_reversal : Reversal
sample_reversal =
    reversal_of sample_committed (ReversalKey.unenrollment (some "f1") (DateValue.datetime 2000))
      committed_world

handle_after_reversal_example :
    handle_lc_enrollment_revoked sample_env true sample_unenrollment
      (reverse_sample committed_world).1
    ≡ (ok tt, (reverse_sample committed_world).1)
unfolding reverse_transaction generate_transaction_reversal_idempotency_key
    listen_for_transaction_reversal load find_row cancel_transaction_external_fulfillment
    cancel_references cancel_external cancel_transaction_fulfillment client_cancel_fulfillment
handle_after_reversal_example =
    handle_after_reversal sample_env writes_one sample_committed (some (DateValue.datetime 2000))
      committed_world (reverse_sample committed_world).1 sample_reversal true sample_unenrollment
      refl refl refl
