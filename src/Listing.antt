-- ===== src/Listing.antt =====
-- The lists of transactions of v2: TransactionBaseViewMixin, the list of TransactionAdminListCreate and
-- TransactionUserList of apps/api/v2/views/transaction.py, TransactionAdminFilterSet of
-- apps/api/filters.py and the paginators of apps/api/paginators.py. What the REST framework's search,
-- order and pagination make of the rows are parameters.
pub mod Pages
pub mod Own
use edx_enterprise_subsidy.Common.{
  ℕ, ◌+◌, ◌-◌, ◌/◌, String, Bool, true, false, not, ◌&&◌, Option, none, some, List, [], ◌∷◌, ◌==◌,
  if◌then◌else◌, any, filter, opt_eq, opt_str_eq,
}
use edx_enterprise_subsidy.Common.Int.{ℤ, pos, negsuc, neg}
use edx_enterprise_subsidy.Schema.Ledger.{Transaction, TransactionState}
use edx_enterprise_subsidy.Schema.Subsidy.{Subsidy}
use edx_enterprise_subsidy.Service.{
  Env, World, Result, ok, err, Exec, Exception, pure, raise, gets, proceed, rescue, catch, ◌>>=◌,
  ◌>>◌,
}
use edx_enterprise_subsidy.Access.{Rbac, Permission, has_perm}
use edx_enterprise_subsidy.Subsidy.{ledger_or_raise, current_balance}
use edx_enterprise_subsidy.Api.{get_subsidy_by_uuid}
use edx_enterprise_subsidy.Deposits.{get_subsidy_customer_uuid_from_view}

abbrev pub same_state : TransactionState → TransactionState → Bool
same_state TransactionState.created TransactionState.created = true
same_state TransactionState.pending TransactionState.pending = true
same_state TransactionState.committed TransactionState.committed = true
same_state TransactionState.failed TransactionState.failed = true
same_state _ _ = false

-- the parameters of the TransactionAdminFilterSet; an empty one is none
pub record TransactionFilters : Type 0 where
  pub lms_user_id : Option ℕ
  pub content_key : Option String
  pub subsidy_access_policy_uuid : Option ℕ
  pub state : List TransactionState

abbrev pub passes : {A : Type 0} → (A → Bool) → Option A → Bool
passes test none = true
passes test (some a) = test a

-- a MultipleChoiceFilter is an OR of its choices, and no filter without one
abbrev pub one_of : List TransactionState → TransactionState → Bool
one_of [] state = true
one_of (choice ∷ choices) state = any (same_state state) (choice ∷ choices)

unfoldable pub matches_filters : TransactionFilters → Transaction → Bool
matches_filters filters t =
    passes (λ u. opt_eq t.lms_user_id u) filters.lms_user_id
    && (passes (λ k. opt_str_eq t.content_key k) filters.content_key
        && (passes (λ p. opt_eq t.subsidy_access_policy_uuid p) filters.subsidy_access_policy_uuid
            && one_of filters.state t.state))

pub record Aggregates : Type 0 where
  pub unit : String
  pub remaining_subsidy_balance : ℤ
  pub total_quantity : ℤ

pub record Page : Type 0 where
  pub results : List Transaction
  pub aggregates : Option Aggregates

pub data ListResponse : Type 0 where
  listed : Page → ListResponse
  forbidden not_found : ListResponse

-- `SubsidyListPaginator.page_count`, from the number of rows and the parameter `page_size`, which may
-- be missing or no integer. Python's `ceil(a / b)` rounds up towards zero for a negative `b`.
abbrev pub ceil_div : ℕ → ℕ → ℕ
ceil_div count n = (count + (n - 1)) / n

abbrev default_page_size : ℤ
default_page_size = pos 10

-- the most rows of a page: a larger page size of a request is cut to it
abbrev pub max_page_size : ℕ
max_page_size = 100

abbrev pub page_size_of : Option (Option ℤ) → Result ℤ
page_size_of none = ok default_page_size
page_size_of (some none) = err Exception.value_error
page_size_of (some (some n)) = ok n

abbrev pub pages_of : ℕ → Result ℤ → Result ℤ
pages_of count (err e) = err e
pages_of count (ok (negsuc n)) = ok (neg (pos (count / (n + 1))))
pages_of count (ok (pos n)) =
    if n == 0 then err Exception.zero_division else ok (pos (ceil_div count n))

unfoldable pub page_count : ℕ → Option (Option ℤ) → Result ℤ
page_count count page_size = pages_of count (page_size_of page_size)

-- `filter(ledger__subsidy=self.subsidy)`
abbrev pub in_ledger_of : Subsidy → Transaction → Bool
in_ledger_of subsidy t = opt_eq subsidy.ledger t.ledger_uuid

abbrev pub found_or_not : Exception → Exec ListResponse
found_or_not Exception.does_not_exist = pure ListResponse.not_found
found_or_not e = raise e

abbrev pub has_user_id : Option ℕ → Bool
has_user_id none = false
has_user_id (some u) = not (u == 0)

module _ (env : Env) where
  -- `TransactionBaseViewMixin.get_queryset`
  unfoldable pub get_queryset : ℕ → Exec (List Transaction)
  unfolding get_subsidy_by_uuid
  get_queryset subsidy_uuid = do
    subsidy ← get_subsidy_by_uuid env subsidy_uuid
    gets (λ w. filter (in_ledger_of subsidy) w.transactions)

  -- the aggregates of the TransactionListPaginator
  unfoldable pub aggregates_for : Bool → ℕ → List Transaction → Exec (Option Aggregates)
  unfolding get_subsidy_by_uuid
  aggregates_for include_aggregates subsidy_uuid queryset =
      if include_aggregates
      then (do
        subsidy ← get_subsidy_by_uuid env subsidy_uuid
        ledger ← ledger_or_raise subsidy.ledger
        total_quantity ← gets (env.subset_balance ledger queryset)
        balance ← current_balance env subsidy
        pure (
            some (record {
              unit = subsidy.unit;
              remaining_subsidy_balance = balance;
              total_quantity = total_quantity;
            })))
      else pure none

  module _ (search page : List Transaction → List Transaction) where
    -- `ListModelMixin.list` with the TransactionListPaginator, on the rows that the filters left
    unfoldable pub paginated : Bool → ℕ → List Transaction → Exec ListResponse
    unfolding aggregates_for
    paginated include_aggregates subsidy_uuid queryset = do
      aggregates ← aggregates_for include_aggregates subsidy_uuid queryset
      pure (ListResponse.listed (record { results = page queryset; aggregates = aggregates }))

    abbrev pub list_filtered : (Transaction → Bool) → Bool → ℕ → Exec ListResponse
    list_filtered test include_aggregates subsidy_uuid = do
      queryset ← get_queryset subsidy_uuid
      paginated include_aggregates subsidy_uuid (search (filter test queryset))

    -- `TransactionAdminListCreate.list`, with its decorator
    unfoldable pub admin_list : Rbac → ℕ → TransactionFilters → Bool → Exec ListResponse
    unfolding get_subsidy_customer_uuid_from_view matches_filters paginated get_queryset
    admin_list rbac subsidy_uuid filters include_aggregates = do
      context ← gets (get_subsidy_customer_uuid_from_view subsidy_uuid)
      if has_perm rbac context Permission.can_read_all_transactions
          then list_filtered (matches_filters filters) include_aggregates subsidy_uuid
          else pure ListResponse.forbidden

    -- `TransactionUserList.list` on its `get_queryset`, with its decorator
    unfoldable pub user_list : Rbac → Option ℕ → ℕ → Bool → Exec ListResponse
    unfolding get_subsidy_customer_uuid_from_view paginated get_queryset
    user_list rbac lms_user_id subsidy_uuid include_aggregates = do
      context ← gets (get_subsidy_customer_uuid_from_view subsidy_uuid)
      if has_perm rbac context Permission.can_read_transactions
          then (if has_user_id lms_user_id
              then catch
                  (list_filtered (λ t. passes (λ u. opt_eq t.lms_user_id u) lms_user_id)
                    include_aggregates subsidy_uuid)
                  found_or_not
              else pure ListResponse.not_found)
          else pure ListResponse.forbidden
