-- ===== src/Access/Requests.antt =====
-- What the TransactionViewSet of apps/api/v1/views/transaction.py reads of a request, and the
-- enterprise that it has the permission checked for.
use edx_enterprise_subsidy.Common.{
  ℕ, String, not, ◌&&◌, Option, none, some, if◌then◌else◌, truthy_text, find, find_row, opt_eq,
}
use edx_enterprise_subsidy.Schema.Ledger.{Transaction}
use edx_enterprise_subsidy.Schema.Subsidy.{Subsidy}
use edx_enterprise_subsidy.Service.{World, Result, ok, err}
use edx_enterprise_subsidy.Api.{active_subsidy, customer_of}
use edx_enterprise_subsidy.Access.{RequestParameters, uuid_parameter}

-- the parameters of the query, the uuid of the URL, and `subsidy_uuid` of the body; a user id is a
-- number here
pub record TransactionRequest : Type 0 where
  pub enterprise_customer_uuid : Option String
  pub subsidy_uuid : Option String
  pub body_subsidy_uuid : Option String
  pub url_uuid : Option String
  pub subsidy_access_policy_uuid : Option String
  pub lms_user_id : Option ℕ
  pub content_key : Option String

abbrev pub non_empty : Option String → Option String
non_empty text = if truthy_text text then text else none

-- the subsidy of the ledger of a transaction
abbrev pub subsidy_of_row : Option Transaction → World → Option Subsidy
subsidy_of_row none w = none
subsidy_of_row (some t) w =
    find (λ s. not s.is_soft_deleted && opt_eq s.ledger t.ledger_uuid) w.subsidies

-- `Subsidy.objects.get(ledger__transactions__in=[...])`; a ledger has one subsidy at most
unfoldable pub subsidy_of_transaction : ℕ → World → Option Subsidy
subsidy_of_transaction u w = subsidy_of_row (find_row (λ t. t.uuid) u w.transactions) w

-- the keyword arguments of the last filter, once each uuid has been parsed
abbrev pub parameters_of :
    TransactionRequest
    → Result (Option ℕ)
    → Result (Option ℕ)
    → Result (Option ℕ)
    → Result (Option ℕ)
    → Result RequestParameters
parameters_of request (ok customer) (ok subsidy) (ok transaction) (ok policy) = ok (record {
  enterprise_customer_uuid = customer;
  subsidy_uuid = subsidy;
  transaction_uuid = transaction;
  subsidy_access_policy_uuid = policy;
  lms_user_id = request.lms_user_id;
  content_key = non_empty request.content_key;
})
parameters_of request (err e) _ _ _ = err e
parameters_of request (ok _) (err e) _ _ = err e
parameters_of request (ok _) (ok _) (err e) _ = err e
parameters_of request (ok _) (ok _) (ok _) (err e) = err e

-- the subsidy that was asked for, or else the one of the transaction that was asked for
abbrev pub permission_context : Result (Option ℕ) → Result (Option ℕ) → World → Result (Option ℕ)
permission_context (err e) transaction w = err e
permission_context (ok (some u)) transaction w = ok (customer_of (active_subsidy u w))
permission_context (ok none) (err e) w = err e
permission_context (ok none) (ok none) w = ok none
permission_context (ok none) (ok (some u)) w = ok (customer_of (subsidy_of_transaction u w))

module _ (parse_uuid : String → Option ℕ) (request : TransactionRequest) where
  unfoldable pub requested_subsidy_access_policy_uuid : Result (Option ℕ)
  requested_subsidy_access_policy_uuid =
      uuid_parameter parse_uuid request.subsidy_access_policy_uuid

  unfoldable pub requested_transaction_uuid : Result (Option ℕ)
  requested_transaction_uuid = uuid_parameter parse_uuid request.url_uuid

  -- the parameter of the query takes priority
  unfoldable pub requested_subsidy_uuid : Result (Option ℕ)
  requested_subsidy_uuid =
      uuid_parameter parse_uuid (
        if truthy_text request.subsidy_uuid
        then request.subsidy_uuid
        else request.body_subsidy_uuid)

  unfoldable pub requested_parameters : Result RequestParameters
  unfolding requested_subsidy_uuid requested_transaction_uuid requested_subsidy_access_policy_uuid
  requested_parameters =
      parameters_of request (uuid_parameter parse_uuid request.enterprise_customer_uuid)
        requested_subsidy_uuid requested_transaction_uuid requested_subsidy_access_policy_uuid

  unfoldable pub get_permission_object : World → Result (Option ℕ)
  unfolding requested_subsidy_uuid requested_transaction_uuid
  get_permission_object = permission_context requested_subsidy_uuid requested_transaction_uuid
