-- ===== src/Subsidies.antt =====
-- The endpoints of subsidies: SubsidyViewSet of apps/api/v1/views/subsidy.py, its serializers in
-- apps/api/v1/serializers.py, ServerError of apps/api/v1/exceptions.py and the parameters of
-- apps/api/v1/utils.py. The router has parsed the uuid of the URL. Listing is not modelled: edx_rbac
-- restricts `base_queryset` there. What the REST framework validates comes before and is a value;
-- `default_detail` and the other texts are left out.
pub mod Views
pub mod Scope
pub mod Kept
pub mod Preserves
pub mod Reachable
pub mod Destroyed
pub mod Creation
use edx_enterprise_subsidy.Common.{
  ℕ, String, Bool, true, false, not, ◌&&◌, Option, none, some, List, [], ◌∷◌, ◌==◌, if◌then◌else◌,
  filter, find, str_eq, opt_str_eq, truthy_text,
}
use edx_enterprise_subsidy.Common.Int.{ℤ}
use edx_enterprise_subsidy.Schema.Ledger.{Transaction}
use edx_enterprise_subsidy.Schema.Subsidy.{Subsidy, RevenueCategory}
use edx_enterprise_subsidy.ContentMetadata.{same_text}
use edx_enterprise_subsidy.Service.{
  Env, World, Result, ok, err, Exec, Exception, pure, raise, gets, lift, proceed, rescue, catch,
  ◌>>=◌, ◌>>◌,
}
use edx_enterprise_subsidy.Access.{Permission, uuid_parameter}
use edx_enterprise_subsidy.Subsidy.{
  active_subsidies, current_balance, total_deposits, aggregated_enrollments_from_transactions,
}
use edx_enterprise_subsidy.Lifecycle.{
  save_subsidy, delete_subsidy, get_or_create_learner_credit_subsidy,
}
use edx_enterprise_subsidy.Api.{customer_of, active_subsidy, is_active, can_redeem}

-- what the endpoints read of a request: the uuid of the URL, the parameters of the query as they are
-- given, and the two entries of the body that the permission of `create` needs. A missing entry is
-- none; a null or empty one is `some none`.
pub record SubsidyRequest : Type 0 where
  pub action : String
  pub uuid : Option ℕ
  pub enterprise_customer_uuid : Option String
  pub uuid_param : Option String
  pub title : Option String
  pub lms_user_id : Option ℕ
  pub content_key : Option String
  pub reference_id : Option (Option String)
  pub default_enterprise_customer_uuid : Option (Option ℕ)

-- `get_permission_required`
unfoldable pub get_permission_required : String → Permission
get_permission_required action =
    if str_eq action "list"
    then Permission.can_read_subsidies
    else if str_eq action "retrieve"
    then Permission.can_read_subsidies
    else if str_eq action "can_redeem"
    then Permission.can_read_subsidies
    else if str_eq action "create"
    then Permission.can_write_subsidies
    else if str_eq action "update"
    then Permission.can_write_subsidies
    else if str_eq action "destroy"
    then Permission.can_write_subsidies
    else if str_eq action "partial_update"
    then Permission.can_write_subsidies
    else if str_eq action "get_aggregates_by_learner"
    then Permission.can_read_subsidies
    else Permission.not_granted

-- the first argument is `UUID`, or none where it raises ValueError
module _ (parse_uuid : String → Option ℕ) where
  unfoldable pub get_enterprise_uuid_from_request_query_params : SubsidyRequest → Result (Option ℕ)
  get_enterprise_uuid_from_request_query_params request =
      uuid_parameter parse_uuid request.enterprise_customer_uuid

  unfoldable pub get_subsidy_uuid_from_request_query_params : SubsidyRequest → Result (Option ℕ)
  get_subsidy_uuid_from_request_query_params request = uuid_parameter parse_uuid request.uuid_param

-- `Subsidy.objects.get(uuid=self.requested_subsidy_uuid)`, or None
unfoldable pub requested_subsidy : SubsidyRequest → World → Option Subsidy
requested_subsidy request w = elim request.uuid [ none ↦ none | some u ↦ active_subsidy u w ]

abbrev entry_or_raise : {A : Type 0} → Option A → Result A
entry_or_raise none = err Exception.key_error
entry_or_raise (some a) = ok a

-- `Subsidy.objects.get(reference_id=...)`
abbrev context_of : Option (Option ℕ) → List Subsidy → Result (Option ℕ)
context_of default [] = entry_or_raise default
context_of default (s ∷ []) = ok (some s.enterprise_customer_uuid)
context_of default (_ ∷ _ ∷ _) = err Exception.multiple_objects_returned

abbrev create_context : Option (Option String) → Option (Option ℕ) → World → Result (Option ℕ)
create_context none default w = err Exception.key_error
create_context (some reference_id) default w =
    context_of default (filter (λ s. same_text s.reference_id reference_id) (active_subsidies w))

-- `requested or default`
abbrev pub or_else : Result (Option ℕ) → Option ℕ → Result (Option ℕ)
or_else (ok (some c)) default = ok (some c)
or_else (ok none) default = ok default
or_else (err e) default = err e

abbrev pub uuid_is : Option ℕ → Subsidy → Bool
uuid_is none s = true
uuid_is (some u) s = s.uuid == u

abbrev pub customer_is : Option ℕ → Subsidy → Bool
customer_is none s = true
customer_is (some c) s = s.enterprise_customer_uuid == c

abbrev title_is : Option String → Subsidy → Bool
title_is title s = if truthy_text title then same_text s.title title else true

-- the uuid of the query replaces the one of the URL
abbrev last_uuid : Option ℕ → Option ℕ → Option ℕ
last_uuid u none = u
last_uuid u (some v) = some v

abbrev pub select :
    SubsidyRequest → Result (Option ℕ) → Result (Option ℕ) → List Subsidy → Result (List Subsidy)
select request (err e) v rows = err e
select request (ok c) (err e) rows = err e
select request (ok c) (ok v) rows = ok (
    filter
      (λ s. customer_is c s && (uuid_is (last_uuid request.uuid v) s && title_is request.title s))
      rows)

abbrev pub opt_or_not_found : Option Subsidy → Result Subsidy
opt_or_not_found none = err Exception.not_found
opt_or_not_found (some s) = ok s

abbrev pub only_with : Option ℕ → Result (List Subsidy) → Result Subsidy
only_with u (err e) = err e
only_with none (ok rows) = err Exception.not_found
only_with (some u) (ok rows) = opt_or_not_found (find (λ s. s.uuid == u) rows)

module _ (parse_uuid : String → Option ℕ) (request : SubsidyRequest) where
  -- the enterprise that the permission is checked for
  unfoldable pub get_permission_object : World → Result (Option ℕ)
  unfolding get_enterprise_uuid_from_request_query_params requested_subsidy
  get_permission_object w =
      if str_eq request.action "create"
      then create_context request.reference_id request.default_enterprise_customer_uuid w
      else or_else (get_enterprise_uuid_from_request_query_params parse_uuid request)
          (customer_of (requested_subsidy request w))

  -- the order is left out
  unfoldable pub base_queryset : World → Result (List Subsidy)
  unfolding get_enterprise_uuid_from_request_query_params get_subsidy_uuid_from_request_query_params
  base_queryset w =
      select request (get_enterprise_uuid_from_request_query_params parse_uuid request)
        (get_subsidy_uuid_from_request_query_params parse_uuid request) (active_subsidies w)

  -- the REST framework's `get_object`: the row of the queryset with the uuid of the URL, or 404
  unfoldable pub get_object : Exec Subsidy
  unfolding base_queryset
  get_object w = (only_with request.uuid (base_queryset w), w)
