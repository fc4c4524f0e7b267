-- ===== src/Tests/Endpoints.antt =====
-- The theorems on access and the endpoints at concrete states.
use edx_enterprise_subsidy.Common.{
  ◌≡◌, refl, true, false, ◌==◌, none, some, [], ◌∷◌, All, any, arith, find_row,
}
use edx_enterprise_subsidy.Common.Int.{pos}
use edx_enterprise_subsidy.Service.{World}
use edx_enterprise_subsidy.ContentMetadata.{
  cached_content, client_get_content_metadata_for_customer, get_content_metadata_for_customer,
  get_course_price, to_cents, price_for_content_fallback, price_for_content as content_price,
  get_course_run,
}
use edx_enterprise_subsidy.Subsidy.{
  content_price_for, price_for_content, current_balance, is_redeemable, all_transactions,
  transactions_for_learner_and_content, get_committed_transaction_no_reversal,
}
use edx_enterprise_subsidy.Access.{
  Role, Permission, Context, Rbac, has_perm, RequestParameters, Jwt, base_queryset, restrict,
  learner_only_contexts, matches_parameters,
}
use edx_enterprise_subsidy.Access.{of_customer}
use edx_enterprise_subsidy.Access.Requests.{
  TransactionRequest, get_permission_object, requested_parameters, requested_subsidy_uuid,
  requested_transaction_uuid, requested_subsidy_access_policy_uuid, subsidy_of_transaction,
}
use edx_enterprise_subsidy.Access.InScope.{OneToOne, base_queryset_in_scope}
use edx_enterprise_subsidy.Access.Waterfall.{has_perm_by_role, holds}
use edx_enterprise_subsidy.Access.Visible.{ElsewhereOrOwn, base_queryset_own}
use edx_enterprise_subsidy.Api.{
  ValidatedData, RequestData, is_active, create_v2, create_v1, can_redeem, redeem_validated,
}
use edx_enterprise_subsidy.Api.Creation.{Answers, documented, create_v2-Answers}
use edx_enterprise_subsidy.Api.BadRequest.{BadOnlyAt, create_v1_bad_request}
use edx_enterprise_subsidy.Api.Redeemable.{stands, can_redeem_none_stands}
use edx_enterprise_subsidy.Schema.Ledger.{Transaction, TransactionState}
use edx_enterprise_subsidy.Service.Quiet.{SameTables}
use edx_enterprise_subsidy.Samples.{
  run_key, sample_subsidy, sample_env, sample_world, sample_committed, committed_world,
}

abbrev operator_only : Rbac
operator_only = record {
  access_via_database = λ role c. false;
  access_via_jwt = λ role c. elim role [ Role.operator ↦ c == 21 | _ ↦ false ];
}

has_perm_by_role_example :
    (has_perm operator_only (some 21) Permission.can_read_transactions
      ≡ any (holds operator_only 21) (Role.learner ∷ Role.admin ∷ Role.operator ∷ []))
    × (has_perm operator_only none Permission.can_read_transactions ≡ false)
has_perm_by_role_example = has_perm_by_role operator_only 21 Permission.can_read_transactions

-- learner 8 asks for all transactions; the one in the table is learner 7's
abbrev learner_jwt : Jwt
learner_jwt = record {
  user_id = some 8;
  learner_contexts = Context.customer 21 ∷ [];
  admin_operator_contexts = Context.customer 22 ∷ [];
}

abbrev no_parameters : RequestParameters
no_parameters = record {
  enterprise_customer_uuid = none;
  subsidy_uuid = none;
  transaction_uuid = none;
  subsidy_access_policy_uuid = none;
  lms_user_id = none;
  content_key = none;
}

-- learner 7, who has made the transaction in the table
abbrev own_jwt : Jwt
own_jwt = record learner_jwt { user_id = some 7 }

base_queryset_own_example :
    All (ElsewhereOrOwn committed_world.subsidies own_jwt 21) (sample_committed ∷ [])
unfolding base_queryset restrict learner_only_contexts matches_parameters
base_queryset_own_example =
    base_queryset_own own_jwt no_parameters committed_world (sample_committed ∷ []) 21 refl refl
      refl refl

abbrev sample_data : ValidatedData
sample_data = record {
  idempotency_key = some "key-1";
  lms_user_id = 7;
  content_key = run_key;
  subsidy_access_policy_uuid = 31;
  metadata = none;
  requested_price_cents = some (pos 9000);
}

create_v2-Answers_example :
    Answers
      (create_v2 sample_env 1 sample_data sample_world)
      (documented (redeem_validated sample_env sample_subsidy sample_data sample_world).0)
      (redeem_validated sample_env sample_subsidy sample_data sample_world).1
unfolding is_active
create_v2-Answers_example =
    create_v2-Answers sample_env 1 sample_data sample_world sample_subsidy refl refl

abbrev sample_body : RequestData
sample_body = record {
  subsidy_uuid = some "s-404";
  lms_user_id = some 7;
  content_key = some run_key;
  subsidy_access_policy_uuid = some "p-31";
  metadata = none;
}

create_v1_bad_request_example :
    BadOnlyAt sample_world (create_v1 sample_env (λ text. some 404) sample_body sample_world)
create_v1_bad_request_example =
    create_v1_bad_request sample_env sample_world sample_body (λ text. some 404)

-- an attempt of learner 7 that failed
abbrev failed_attempt : Transaction
failed_attempt = record sample_committed { state = TransactionState.failed }

abbrev failed_world : World
failed_world = record sample_world { transactions = failed_attempt ∷ [] }

abbrev asked_world : World
asked_world = (can_redeem sample_env sample_subsidy 7 run_key failed_world).1

can_redeem_none_stands_example :
    All (λ t. stands failed_world t ≡ false) (failed_attempt ∷ [])
    × (failed_attempt ∷ []
        ≡ transactions_for_learner_and_content sample_subsidy 7 run_key failed_world)
    × SameTables failed_world asked_world
unfolding can_redeem is_active is_redeemable price_for_content get_course_price
    get_content_metadata_for_customer cached_content client_get_content_metadata_for_customer
    content_price to_cents price_for_content_fallback get_course_run content_price_for
    current_balance get_committed_transaction_no_reversal transactions_for_learner_and_content
    all_transactions
can_redeem_none_stands_example =
    can_redeem_none_stands sample_env sample_subsidy 7 run_key failed_world asked_world true 10000
      (failed_attempt ∷ []) refl

-- an admin asks for transaction 100
abbrev admin_jwt : Jwt
admin_jwt = record learner_jwt { admin_operator_contexts = Context.customer 21 ∷ [] }

abbrev retrieve_request : TransactionRequest
retrieve_request = record {
  enterprise_customer_uuid = none;
  subsidy_uuid = none;
  body_subsidy_uuid = none;
  url_uuid = some "t-100";
  subsidy_access_policy_uuid = none;
  lms_user_id = none;
  content_key = none;
}

abbrev transaction_parameters : RequestParameters
transaction_parameters = record no_parameters { transaction_uuid = some 100 }

one_to_one : OneToOne committed_world.subsidies
one_to_one = (λ l h. ground (arith, h), tt)

base_queryset_in_scope_example :
    All (λ t. of_customer committed_world.subsidies 21 t ≡ true) (sample_committed ∷ [])
unfolding base_queryset restrict learner_only_contexts matches_parameters get_permission_object
    requested_parameters requested_subsidy_uuid requested_transaction_uuid
    requested_subsidy_access_policy_uuid subsidy_of_transaction find_row
base_queryset_in_scope_example =
    base_queryset_in_scope (λ text. some 100) retrieve_request admin_jwt transaction_parameters
      committed_world (sample_committed ∷ []) 21 (tt, tt) (tt, tt) one_to_one refl refl refl
