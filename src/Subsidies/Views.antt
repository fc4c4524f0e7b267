-- ===== src/Subsidies/Views.antt =====
-- The actions of the SubsidyViewSet: can_redeem, create, update, partial_update, destroy and
-- get_aggregates_by_learner, with their serializers.
use edx_enterprise_subsidy.Common.{ℕ, String, Bool, true, false, Option, none, some, List}
use edx_enterprise_subsidy.Common.Int.{ℤ}
use edx_enterprise_subsidy.Schema.Ledger.{Deposit, Transaction}
use edx_enterprise_subsidy.Schema.Subsidy.{Subsidy, RevenueCategory}
use edx_enterprise_subsidy.Service.{
  Env, World, Result, Exec, Exception, pure, raise, gets, lift, catch, ◌>>=◌, ◌>>◌,
}
use edx_enterprise_subsidy.Subsidy.{
  current_balance, total_deposits, aggregated_enrollments_from_transactions,
}
use edx_enterprise_subsidy.Lifecycle.{
  save_subsidy, delete_subsidy, get_or_create_learner_credit_subsidy,
}
use edx_enterprise_subsidy.Api.{is_active, can_redeem}
use edx_enterprise_subsidy.Subsidies.{SubsidyRequest, requested_subsidy, get_object}

-- the SubsidySerializer: the fields of the row, and those that it computes
pub record SubsidyData : Type 0 where
  pub subsidy : Subsidy
  pub current_balance : ℤ
  pub is_active : Bool
  pub total_deposits : ℤ

-- `validated_data` of the SubsidyCreationRequestSerializer
pub record SubsidyCreationRequest : Type 0 where
  pub reference_id : String
  pub default_title : String
  pub default_enterprise_customer_uuid : ℕ
  pub default_active_datetime : ℕ
  pub default_expiration_datetime : ℕ
  pub default_unit : String
  pub default_starting_balance : ℤ
  pub default_revenue_category : RevenueCategory
  pub default_internal_only : Bool

-- the fields that a request to update a subsidy has, as the SubsidyUpdateRequestSerializer validates
-- them
pub record SubsidyUpdate : Type 0 where
  pub title : Option (Option String)
  pub enterprise_customer_uuid : Option ℕ
  pub active_datetime : Option (Option ℕ)
  pub expiration_datetime : Option (Option ℕ)
  pub unit : Option String
  pub reference_id : Option (Option String)
  pub reference_type : Option String
  pub internal_only : Option Bool
  pub revenue_category : Option RevenueCategory

-- the body of a request to create a subsidy: empty, refused by its serializer, or valid
pub data CreationBody : Type 0 where
  empty invalid : CreationBody
  valid : SubsidyCreationRequest → CreationBody

-- the codes of ServerError
pub data ServerErrorCode : Type 0 where
  multiple_subsidies_found could_not_create_subsidy : ServerErrorCode

-- 201, 200, 400, 204 and, for a ServerError, 500
pub data SubsidyResponse : Type 0 where
  created found : SubsidyData → SubsidyResponse
  bad_request no_content : SubsidyResponse
  server_error : ServerErrorCode → SubsidyResponse

pub record CanRedeemResult : Type 0 where
  pub can_redeem : Bool
  pub content_price : ℕ
  pub unit : String
  pub all_transactions : List Transaction
  pub active : Bool

abbrev changed {ℓ} : {A : Type ℓ} → Option A → A → A
changed none a = a
changed (some b) a = b

-- the fields of the request, set on the row
unfoldable pub updated : SubsidyUpdate → Subsidy → Subsidy
updated request s = record s {
  title = changed request.title s.title;
  enterprise_customer_uuid = changed request.enterprise_customer_uuid s.enterprise_customer_uuid;
  active_datetime = changed request.active_datetime s.active_datetime;
  expiration_datetime = changed request.expiration_datetime s.expiration_datetime;
  unit = changed request.unit s.unit;
  reference_id = changed request.reference_id s.reference_id;
  reference_type = changed request.reference_type s.reference_type;
  internal_only = changed request.internal_only s.internal_only;
  revenue_category = changed request.revenue_category s.revenue_category;
}

-- the row of a new subsidy, with the uuid that `uuid4` gives and the defaults of the model
abbrev pub new_subsidy : ℕ → SubsidyCreationRequest → Subsidy
new_subsidy uuid request = record {
  uuid = uuid;
  title = some request.default_title;
  starting_balance = request.default_starting_balance;
  ledger = none;
  unit = request.default_unit;
  reference_id = some request.reference_id;
  reference_type = "salesforce_opportunity_line_item";
  enterprise_customer_uuid = request.default_enterprise_customer_uuid;
  internal_only = request.default_internal_only;
  revenue_category = request.default_revenue_category;
  active_datetime = some request.default_active_datetime;
  expiration_datetime = some request.default_expiration_datetime;
  is_soft_deleted = false;
}

-- the `except` clauses of `create`
abbrev pub on_create_error : Exception → Exec SubsidyResponse
on_create_error Exception.multiple_objects_returned =
    pure (SubsidyResponse.server_error ServerErrorCode.multiple_subsidies_found)
on_create_error _ = pure (SubsidyResponse.server_error ServerErrorCode.could_not_create_subsidy)

abbrev subsidy_or_none : Option Subsidy → Exec Subsidy
subsidy_or_none none = raise Exception.attribute_error
subsidy_or_none (some s) = pure s

abbrev subsidy_or_404 : Option Subsidy → Exec Subsidy
subsidy_or_404 none = raise Exception.not_found
subsidy_or_404 (some s) = pure s

module _ (env : Env) where
  unfoldable pub subsidy_serializer : Subsidy → Exec SubsidyData
  subsidy_serializer subsidy = do
    balance ← current_balance env subsidy
    active ← λ w. (is_active subsidy (env.now w), w)
    deposits ← total_deposits env subsidy
    pure (record {
      subsidy = subsidy;
      current_balance = balance;
      is_active = active;
      total_deposits = deposits;
    })

  abbrev can_redeem_for : SubsidyRequest → Option ℕ → Option String → Exec CanRedeemResult
  can_redeem_for request (some lms_user_id) (some content_key) = do
    requested ← gets (requested_subsidy request)
    subsidy ← subsidy_or_none requested
    (redeemable, active, content_price, existing_transactions) ←
        can_redeem env subsidy lms_user_id content_key
    pure (record {
      can_redeem = redeemable;
      content_price = content_price;
      unit = subsidy.unit;
      all_transactions = existing_transactions;
      active = active;
    })
  can_redeem_for request _ _ = raise Exception.parse_error

  -- the action `can_redeem`; an empty parameter is none
  unfoldable can_redeem_action : SubsidyRequest → Exec CanRedeemResult
  can_redeem_action request = can_redeem_for request request.lms_user_id request.content_key

  -- the serializer of the query is given the policy, or refuses
  unfoldable get_aggregates_by_learner : SubsidyRequest → Result (Option ℕ) → Exec (List (ℕ × ℕ))
  get_aggregates_by_learner request policy = do
    requested ← gets (requested_subsidy request)
    subsidy ← subsidy_or_404 requested
    subsidy_access_policy_uuid ← lift policy
    gets (aggregated_enrollments_from_transactions subsidy subsidy_access_policy_uuid)

  module _ (create_ledger : Subsidy → World → Result (ℕ × List Transaction × List Deposit)) where
    abbrev pub created_or_found : Subsidy × Bool → Exec SubsidyResponse
    created_or_found (subsidy, true) = do
      body ← subsidy_serializer subsidy
      pure (SubsidyResponse.created body)
    created_or_found (subsidy, false) = do
      body ← subsidy_serializer subsidy
      pure (SubsidyResponse.found body)

    -- a subsidy is always true, so that its third branch is never taken
    unfoldable pub create : ℕ → CreationBody → Exec SubsidyResponse
    unfolding subsidy_serializer
    create uuid CreationBody.empty = pure SubsidyResponse.bad_request
    create uuid CreationBody.invalid = raise Exception.invalid_request
    create uuid (CreationBody.valid request) =
        catch
          (get_or_create_learner_credit_subsidy create_ledger (new_subsidy uuid request)
            >>= created_or_found)
          on_create_error

    module _ (parse_uuid : String → Option ℕ) where
      -- `update` and `partial_update`; the serializer refuses the body, or validates it
      unfoldable pub update : SubsidyRequest → Result SubsidyUpdate → Exec SubsidyData
      unfolding updated subsidy_serializer
      update request body = do
        subsidy ← get_object parse_uuid request
        validated ← lift body
        saved ← save_subsidy create_ledger false (updated validated subsidy)
        subsidy_serializer saved

      unfoldable pub destroy : SubsidyRequest → Exec SubsidyResponse
      destroy request = do
        subsidy ← get_object parse_uuid request
        delete_subsidy create_ledger subsidy
        pure SubsidyResponse.no_content
