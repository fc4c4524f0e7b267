-- ===== src/Access.antt =====
-- Who may do and see what: apps/subsidy/rules.py and constants.py, and the permissions and the
-- `base_queryset` of the TransactionViewSet in apps/api/v1/views/transaction.py. The roles and
-- contexts that edx_rbac finds for the user are parameters. The uuids of a request are parsed here,
-- and the order of the queryset is left out.
pub mod Waterfall
pub mod Visible
pub mod Requests
pub mod InScope
use edx_enterprise_subsidy.Common.{
  ℕ, String, Bool, true, false, not, ◌&&◌, ◌||◌, Option, none, some, List, [], ◌∷◌, ◌==◌,
  if◌then◌else◌, opt_eq, opt_str_eq, str_eq, filter, find, any,
}
use edx_enterprise_subsidy.Schema.Ledger.{Transaction}
use edx_enterprise_subsidy.Schema.Subsidy.{Subsidy}
use edx_enterprise_subsidy.Service.{Result, ok, err, Exception, World}

pub data Role : Type 0 where
  learner admin operator : Role

-- edx_rbac's contexts: an enterprise customer, or "*" for all of them
pub data Context : Type 0 where
  all_access : Context
  customer : ℕ → Context

abbrev same_context : Context → Context → Bool
same_context Context.all_access Context.all_access = true
same_context (Context.customer c) (Context.customer d) = c == d
same_context _ _ = false

abbrev pub member : Context → List Context → Bool
member c = any (same_context c)

pub data Permission : Type 0 where
  can_create_deposits can_create_transactions can_read_subsidies can_read_transactions : Permission
  can_read_all_transactions can_read_content_metadata can_write_subsidies not_granted : Permission

-- `user_has_access_via_database` and `request_user_has_implicit_access_via_jwt` for the user
pub record Rbac : Type 0 where
  pub access_via_database : Role → ℕ → Bool
  pub access_via_jwt : Role → ℕ → Bool

module _ (rbac : Rbac) (context : Option ℕ) where
  abbrev in_context : (ℕ → Bool) → Option ℕ → Bool
  in_context has none = false
  in_context has (some c) = has c

  unfoldable pub _user_has_explicit_access_via_feature_role : Role → Bool
  _user_has_explicit_access_via_feature_role role =
      in_context (rbac.access_via_database role) context

  unfoldable pub _user_has_implicit_access_via_feature_role : Role → Bool
  _user_has_implicit_access_via_feature_role role = in_context (rbac.access_via_jwt role) context

  unfoldable pub has_operator_level_access : Bool
  unfolding _user_has_explicit_access_via_feature_role _user_has_implicit_access_via_feature_role
  has_operator_level_access =
      _user_has_implicit_access_via_feature_role Role.operator
      || _user_has_explicit_access_via_feature_role Role.operator

  unfoldable pub has_admin_level_access : Bool
  unfolding _user_has_explicit_access_via_feature_role _user_has_implicit_access_via_feature_role
  has_admin_level_access =
      _user_has_implicit_access_via_feature_role Role.operator
      || (_user_has_explicit_access_via_feature_role Role.operator
          || (_user_has_implicit_access_via_feature_role Role.admin
              || _user_has_explicit_access_via_feature_role Role.admin))

  unfoldable pub has_learner_level_access : Bool
  unfolding _user_has_explicit_access_via_feature_role _user_has_implicit_access_via_feature_role
  has_learner_level_access =
      _user_has_implicit_access_via_feature_role Role.operator
      || (_user_has_explicit_access_via_feature_role Role.operator
          || (_user_has_implicit_access_via_feature_role Role.admin
              || (_user_has_explicit_access_via_feature_role Role.admin
                  || (_user_has_implicit_access_via_feature_role Role.learner
                      || _user_has_explicit_access_via_feature_role Role.learner))))

  -- the calls of `rules.add_perm`
  unfoldable pub has_perm : Permission → Bool
  has_perm Permission.can_create_deposits = has_operator_level_access
  has_perm Permission.can_create_transactions = has_operator_level_access
  has_perm Permission.can_read_subsidies = has_admin_level_access
  has_perm Permission.can_read_transactions = has_learner_level_access
  has_perm Permission.can_read_all_transactions = has_admin_level_access
  has_perm Permission.can_read_content_metadata = has_learner_level_access
  has_perm Permission.can_write_subsidies = has_operator_level_access
  has_perm Permission.not_granted = false

-- `get_permission_required` of the TransactionViewSet
unfoldable get_permission_required : String → Permission
get_permission_required action =
    if str_eq action "list"
    then Permission.can_read_transactions
    else if str_eq action "retrieve"
    then Permission.can_read_transactions
    else if str_eq action "create"
    then Permission.can_create_transactions
    else if str_eq action "reverse"
    then Permission.can_create_transactions
    else Permission.not_granted

-- the first argument is `UUID`, or none where it raises ValueError
module _ (parse_uuid : String → Option ℕ) where
  abbrev pub parsed_or_raise : Option ℕ → Result (Option ℕ)
  parsed_or_raise none = err Exception.parse_error
  parsed_or_raise (some u) = ok (some u)

  abbrev pub uuid_parameter : Option String → Result (Option ℕ)
  uuid_parameter none = ok none
  uuid_parameter (some text) = if str_eq text "" then ok none else parsed_or_raise (parse_uuid text)

-- the parameters of a request, an empty text being none
pub record RequestParameters : Type 0 where
  pub enterprise_customer_uuid : Option ℕ
  pub subsidy_uuid : Option ℕ
  pub transaction_uuid : Option ℕ
  pub subsidy_access_policy_uuid : Option ℕ
  pub lms_user_id : Option ℕ
  pub content_key : Option String

-- what the user's token says: its user id and the contexts of the roles
pub record Jwt : Type 0 where
  pub user_id : Option ℕ
  pub learner_contexts : List Context
  pub admin_operator_contexts : List Context

-- `ledger__subsidy` of a transaction
abbrev pub subsidy_of_ledger : List Subsidy → Transaction → Option Subsidy
subsidy_of_ledger subsidies t = find (λ s. opt_eq s.ledger t.ledger_uuid) subsidies

abbrev pub subsidy_is : (Subsidy → Bool) → Option Subsidy → Bool
subsidy_is test none = false
subsidy_is test (some s) = test s

-- Q(ledger__subsidy__enterprise_customer_uuid=customer)
abbrev pub of_customer : List Subsidy → ℕ → Transaction → Bool
of_customer subsidies c t =
    subsidy_is (λ s. s.enterprise_customer_uuid == c) (subsidy_of_ledger subsidies t)

abbrev pub of_subsidy : List Subsidy → ℕ → Transaction → Bool
of_subsidy subsidies u t = subsidy_is (λ s. s.uuid == u) (subsidy_of_ledger subsidies t)

unfoldable pub learner_only_contexts : Jwt → List Context
learner_only_contexts jwt =
    if member Context.all_access jwt.admin_operator_contexts
    then []
    else filter (λ c. not (member c jwt.admin_operator_contexts)) jwt.learner_contexts

-- the filter of one context
abbrev pub own_or_elsewhere : List Subsidy → Option ℕ → ℕ → Transaction → Bool
own_or_elsewhere subsidies none c t = not (of_customer subsidies c t)
own_or_elsewhere subsidies (some user) c t =
    if user == 0
    then not (of_customer subsidies c t)
    else (of_customer subsidies c t && opt_eq t.lms_user_id user) || not (of_customer subsidies c t)

-- the loop over the contexts; "*" is no uuid, so a filter by it raises
unfoldable pub restrict :
    List Subsidy → Option ℕ → List Context → List Transaction → Result (List Transaction)
restrict subsidies user [] queryset = ok queryset
restrict subsidies user (Context.all_access ∷ rest) queryset = err Exception.validation
restrict subsidies user (Context.customer c ∷ rest) queryset =
    restrict subsidies user rest (filter (own_or_elsewhere subsidies user c) queryset)

abbrev pub passes : {A : Type 0} → (A → Bool) → Option A → Bool
passes test none = true
passes test (some a) = test a

unfoldable pub matches_parameters : List Subsidy → RequestParameters → Transaction → Bool
matches_parameters subsidies parameters t =
    passes (λ c. of_customer subsidies c t) parameters.enterprise_customer_uuid
    && (passes (λ u. of_subsidy subsidies u t) parameters.subsidy_uuid
        && (passes (λ u. t.uuid == u) parameters.transaction_uuid
            && (passes (λ p. opt_eq t.subsidy_access_policy_uuid p)
                  parameters.subsidy_access_policy_uuid
                && (passes (λ u. opt_eq t.lms_user_id u) parameters.lms_user_id
                    && passes (λ k. opt_str_eq t.content_key k) parameters.content_key))))

abbrev pub filter_result :
    (Transaction → Bool) → Result (List Transaction) → Result (List Transaction)
filter_result test (ok queryset) = ok (filter test queryset)
filter_result test (err e) = err e

unfoldable pub base_queryset : Jwt → RequestParameters → World → Result (List Transaction)
unfolding restrict learner_only_contexts matches_parameters
base_queryset jwt parameters w =
    filter_result (matches_parameters w.subsidies parameters)
      (restrict w.subsidies jwt.user_id (learner_only_contexts jwt) w.transactions)
