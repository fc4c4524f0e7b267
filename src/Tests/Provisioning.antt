-- ===== src/Tests/Provisioning.antt =====
-- The theorems on the endpoints of subsidies at concrete states.
use edx_enterprise_subsidy.Common.{
  ℕ, ◌≡◌, refl, false, Option, none, some, String, List, save_row, find_row, length, filter,
}
use edx_enterprise_subsidy.Common.Int.{pos}
use edx_enterprise_subsidy.Schema.Ledger.{Deposit, Transaction}
use edx_enterprise_subsidy.Schema.Subsidy.{Subsidy, RevenueCategory}
use edx_enterprise_subsidy.Service.{World, Result, ok}
use edx_enterprise_subsidy.Batches.Sorted.{IsDistinct}
use edx_enterprise_subsidy.Subsidy.{all_transactions, aggregated_enrollments_from_transactions}
use edx_enterprise_subsidy.Subsidy.Aggregates.{
  total_of, learner, counts_for, aggregated_enrollments_from_transactions_lem,
}
use edx_enterprise_subsidy.Lifecycle.{clean, subsidy_pre_save, save_subsidy, delete_subsidy}
use edx_enterprise_subsidy.Subsidies.{
  SubsidyRequest, get_permission_object, get_object, base_queryset, requested_subsidy,
  get_enterprise_uuid_from_request_query_params, get_subsidy_uuid_from_request_query_params,
}
use edx_enterprise_subsidy.Subsidies.Views.{
  SubsidyCreationRequest, CreationBody, SubsidyResponse, new_subsidy, create, destroy,
}
use edx_enterprise_subsidy.Subsidies.Scope.{get_object_in_scope}
use edx_enterprise_subsidy.Subsidies.Creation.{Answered, create-Answered}
use edx_enterprise_subsidy.Subsidies.Kept.{Keeps}
use edx_enterprise_subsidy.Subsidies.Preserves.{SubsidiesOk}
use edx_enterprise_subsidy.Subsidies.Reachable.{Step, Reachable, Reachable-SubsidiesOk}
use edx_enterprise_subsidy.Subsidies.Destroyed.{Gone, destroy-Gone}
use edx_enterprise_subsidy.Samples.{sample_env, sample_subsidy, sample_world, committed_world}

abbrev ledger_12 : Subsidy → World → Result (ℕ × List Transaction × List Deposit)
ledger_12 s w = ok (12, w.transactions, w.deposits)

abbrev no_uuid : String → Option ℕ
no_uuid text = none

abbrev request_for : String → SubsidyRequest
request_for action = record {
  action = action;
  uuid = some 1;
  enterprise_customer_uuid = none;
  uuid_param = none;
  title = none;
  lms_user_id = none;
  content_key = none;
  reference_id = none;
  default_enterprise_customer_uuid = none;
}

get_object_in_scope_example : sample_subsidy.enterprise_customer_uuid ≡ 21
unfolding get_permission_object get_object base_queryset requested_subsidy
    get_enterprise_uuid_from_request_query_params get_subsidy_uuid_from_request_query_params
get_object_in_scope_example =
    get_object_in_scope no_uuid (request_for "retrieve") sample_world sample_world 21 sample_subsidy
      refl (tt, tt) refl refl

abbrev sample_request : SubsidyCreationRequest
sample_request = record {
  reference_id = "opp-2";
  default_title = "More credit";
  default_enterprise_customer_uuid = 21;
  default_active_datetime = 0;
  default_expiration_datetime = 9000000;
  default_unit = "usd_cents";
  default_starting_balance = pos 5000;
  default_revenue_category = RevenueCategory.bulk_enrollment_prepay;
  default_internal_only = false;
}

create-Answered_example :
    Answered
      (new_subsidy 2 sample_request)
      sample_world
      (create sample_env ledger_12 2 (CreationBody.valid sample_request) sample_world)
create-Answered_example = create-Answered sample_env ledger_12 2 sample_request sample_world

abbrev sample_ok : SubsidiesOk sample_world
sample_ok = record { unique = ((refl, tt), tt); distinct = (tt, tt); ledgers = (refl, tt) }

abbrev created_world : World
created_world = (create sample_env ledger_12 2 (CreationBody.valid sample_request) sample_world).1

-- one subsidy is created, and the first one deleted
abbrev two_requests : World
two_requests = (destroy sample_env ledger_12 no_uuid (request_for "destroy") created_world).1

Reachable-SubsidiesOk_example : SubsidiesOk two_requests × Keeps sample_world two_requests
unfolding find_row
Reachable-SubsidiesOk_example =
    Reachable-SubsidiesOk sample_env ledger_12 no_uuid sample_world two_requests
      (Reachable.after created_world two_requests
        (Reachable.after sample_world created_world (Reachable.start sample_world refl)
          (Step.creates 2 (CreationBody.valid sample_request) refl refl))
        (Step.destroys (request_for "destroy") refl))
      sample_ok

abbrev destroyed_world : World
destroyed_world = (destroy sample_env ledger_12 no_uuid (request_for "destroy") sample_world).1

destroy-Gone_example :
    (s : Subsidy) × ((get_object no_uuid (request_for "destroy") sample_world).0 ≡ ok s)
    × Gone s sample_world destroyed_world
unfolding destroy get_object base_queryset get_enterprise_uuid_from_request_query_params
    get_subsidy_uuid_from_request_query_params delete_subsidy save_subsidy clean subsidy_pre_save
    save_row
destroy-Gone_example =
    destroy-Gone sample_env ledger_12 no_uuid (request_for "destroy") sample_world destroyed_world
      SubsidyResponse.no_content sample_ok refl

aggregated_enrollments_from_transactions_lem_example :
    IsDistinct learner
      (aggregated_enrollments_from_transactions sample_subsidy none committed_world)
    × ((u : ℕ)
        → total_of u (aggregated_enrollments_from_transactions sample_subsidy none committed_world)
          ≡ length (
              filter
                (counts_for none committed_world u)
                (all_transactions sample_subsidy committed_world)))
aggregated_enrollments_from_transactions_lem_example =
    aggregated_enrollments_from_transactions_lem sample_subsidy none committed_world
