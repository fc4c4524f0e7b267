-- ===== src/Tests/Listings.antt =====
-- The theorems on deposits and on the lists of transactions at concrete states.
use edx_enterprise_subsidy.Common.{
  arith, ℕ, ◌*◌, ◌≤◌, ◌≡◌, ◌↔◌, refl, true, false, ◌==◌, Option, none, some, List, [], ◌∷◌, All,
  opt_eq,
}
use edx_enterprise_subsidy.Common.Int.{pos}
use edx_enterprise_subsidy.Schema.Ledger.{Transaction}
use edx_enterprise_subsidy.Schema.Subsidy.{Subsidy}
use edx_enterprise_subsidy.Service.{ok}
use edx_enterprise_subsidy.Access.{
  Rbac, has_perm, has_admin_level_access, has_learner_level_access,
  _user_has_explicit_access_via_feature_role, _user_has_implicit_access_via_feature_role,
}
use edx_enterprise_subsidy.Api.{active_subsidy, get_subsidy_by_uuid}
use edx_enterprise_subsidy.Deposits.{
  DepositData, deposit_admin_create, get_subsidy_customer_uuid_from_view,
}
use edx_enterprise_subsidy.Deposits.Created.{Ended, deposit_admin_create-Ended}
use edx_enterprise_subsidy.Listing.{
  TransactionFilters, Page, in_ledger_of, matches_filters, admin_list, user_list, get_queryset,
  paginated, aggregates_for, page_count,
}
use edx_enterprise_subsidy.Listing.Own.{admin_list_shows, user_list_shows}
use edx_enterprise_subsidy.Listing.Pages.{page_count_lem}
use edx_enterprise_subsidy.Samples.{sample_env, sample_world, sample_committed, committed_world}

-- every role, for the one enterprise
abbrev every_role : Rbac
every_role = record { access_via_database = λ role c. false; access_via_jwt = λ role c. c == 21 }

abbrev sample_deposit_data : DepositData
sample_deposit_data = record {
  desired_deposit_quantity = pos 5000;
  sales_contract_reference_id = "contract-1";
  sales_contract_reference_provider = "sf";
  idempotency_key = none;
  metadata = none;
}

deposit_admin_create-Ended_example :
    Ended sample_env every_role 1 sample_deposit_data sample_world
      (deposit_admin_create sample_env every_role 1 sample_deposit_data sample_world)
deposit_admin_create-Ended_example =
    deposit_admin_create-Ended sample_env every_role 1 sample_deposit_data sample_world
      (λ s rows deposits h. cc)

abbrev all_rows : List Transaction → List Transaction
all_rows rows = rows

abbrev committed_page : Page
committed_page = record { results = sample_committed ∷ []; aggregates = none }

abbrev no_filters : TransactionFilters
no_filters = record {
  lms_user_id = none;
  content_key = none;
  subsidy_access_policy_uuid = none;
  state = [];
}

admin_list_shows_example :
    (s : Subsidy) × (active_subsidy 1 committed_world ≡ some s)
    × (has_admin_level_access every_role (some s.enterprise_customer_uuid) ≡ true)
    × All
        (λ t. (matches_filters no_filters t ≡ true) × (in_ledger_of s t ≡ true))
        (sample_committed ∷ [])
unfolding admin_list get_subsidy_customer_uuid_from_view has_perm has_admin_level_access
    _user_has_explicit_access_via_feature_role _user_has_implicit_access_via_feature_role
    matches_filters paginated get_queryset get_subsidy_by_uuid aggregates_for
admin_list_shows_example =
    admin_list_shows sample_env all_rows all_rows every_role 1 no_filters false committed_world
      committed_world committed_page (λ P rows h. h) (λ P rows h. h) refl

user_list_shows_example :
    (s : Subsidy) × (user : ℕ) × (active_subsidy 1 committed_world ≡ some s)
    × (◌≡◌ {A = Option ℕ} (some 7) (some user))
    × (has_learner_level_access every_role (some s.enterprise_customer_uuid) ≡ true)
    × All
        (λ t. (opt_eq t.lms_user_id user ≡ true) × (in_ledger_of s t ≡ true))
        (sample_committed ∷ [])
unfolding user_list get_subsidy_customer_uuid_from_view has_perm has_learner_level_access
    _user_has_explicit_access_via_feature_role _user_has_implicit_access_via_feature_role paginated
    get_queryset get_subsidy_by_uuid aggregates_for
user_list_shows_example =
    user_list_shows sample_env all_rows all_rows every_role (some 7) 1 false committed_world
      committed_world committed_page (λ P rows h. h) (λ P rows h. h) refl

page_count_lem_example :
    (k : ℕ) × (page_count 41 none ≡ ok (pos k)) × ((m : ℕ) → (k ≤ m) ↔ (41 ≤ m * 10))
page_count_lem_example = page_count_lem 41 none 9 refl (omega arith)
