-- ===== src/Subsidy.antt =====
-- The methods of `Subsidy` in apps/subsidy/models.py that read the ledger and the catalog.
pub mod Quiet
pub mod Asking
pub mod Aggregates
use edx_enterprise_subsidy.Common.{
  ℕ, ◌+◌, ◌*◌, String, Bool, true, false, not, ◌&&◌, ◌||◌, Option, none, some, List, [], ◌∷◌, ◌==◌,
  if◌then◌else◌, leb, find, filter, any, opt_eq, opt_str_eq, is_some,
}
use edx_enterprise_subsidy.Common.Int.{ℤ, pos, negsuc, leb_ℤ, pos_part}
use edx_enterprise_subsidy.Schema.Ledger.{Transaction, Reversal, TransactionState, is_committed}
use edx_enterprise_subsidy.Schema.Subsidy.{Subsidy}
use edx_enterprise_subsidy.Schema.Remote.{UserData}
use edx_enterprise_subsidy.Service.{
  Env, World, Result, ok, err, Exec, Exception, pure, raise, gets, lift, proceed, rescue, catch,
  ◌>>=◌, ◌>>◌,
}
use edx_enterprise_subsidy.ContentMetadata.{SummaryData, get_content_summary, get_course_price}
use edx_enterprise_subsidy.ApiClient.{best_effort_user_data}

-- settings: ALLOCATION_PRICE_VALIDATION_{LOWER,UPPER}_BOUND_RATIO, in percent. On whole cents the
-- comparison of floats in the code agrees with this one.
abbrev lower_bound_percent : ℕ
lower_bound_percent = 80

abbrev upper_bound_percent : ℕ
upper_bound_percent = 120

-- `lower_bound <= requested_price_cents <= upper_bound`
abbrev within_bounds : ℕ → ℕ → Bool
within_bounds requested canonical =
    leb (lower_bound_percent * canonical) (100 * requested)
    && leb (100 * requested) (upper_bound_percent * canonical)

unfoldable pub validate_requested_price : ℤ → ℕ → Result ℕ
validate_requested_price (negsuc n) canonical_price_cents = err Exception.price_validation
validate_requested_price (pos requested) canonical_price_cents =
    if within_bounds requested canonical_price_cents
    then ok requested
    else err Exception.price_validation

-- `bool(requested_price_cents)`: false at 0
abbrev truthy_price_request : ℤ → Bool
truthy_price_request (pos n) = not (n == 0)
truthy_price_request (negsuc n) = true

-- the choice of `content_price` in `is_redeemable`
unfoldable pub content_price_for : Option ℤ → ℕ → Result ℕ
unfolding validate_requested_price
content_price_for none canonical_price_cents = ok canonical_price_cents
content_price_for (some requested) canonical_price_cents =
    if truthy_price_request requested
    then validate_requested_price requested canonical_price_cents
    else ok canonical_price_cents

-- `reversal__isnull=False`
abbrev pub is_reversed : List Reversal → Transaction → Bool
is_reversed reversals t = any (λ r. r.transaction_uuid == t.uuid) reversals

-- `self.ledger`; a method call on a missing ledger raises AttributeError
abbrev pub ledger_or_raise : Option ℕ → Exec ℕ
ledger_or_raise none = raise Exception.attribute_error
ledger_or_raise (some ledger) = pure ledger

abbrev pub on_not_found : {A : Type 0} → Exception → Exec A → Exec A
on_not_found (Exception.http_error code) other =
    if code == 404 then raise Exception.content_not_found else other
on_not_found e other = raise e

-- `Subsidy.objects`, whose manager leaves out the soft-deleted rows
abbrev pub active_subsidies : World → List Subsidy
active_subsidies w = filter (λ s. not s.is_soft_deleted) w.subsidies

module _ (env : Env) (self : Subsidy) where
  abbrev email_of : Option UserData → Option String
  email_of none = none
  email_of (some user) = user.email

  unfoldable pub email_for_learner : ℕ → Exec (Option String)
  email_for_learner lms_user_id = do
    user_data ← best_effort_user_data env lms_user_id
    pure (email_of user_data)

  -- `none` is the empty summary, after any HTTP error but 404
  unfoldable pub metadata_summary_for_content : String → Exec (Option SummaryData)
  metadata_summary_for_content content_key =
      catch
        (do
          summary ← get_content_summary env self.enterprise_customer_uuid content_key
          pure (some summary))
        λ e. on_not_found e (pure none)

  abbrev pub title_in : Option SummaryData → Option String
  title_in none = none
  title_in (some summary) = summary.content_title

  unfoldable pub title_for_content : String → Exec (Option String)
  unfolding metadata_summary_for_content
  title_for_content content_key = do
    summary ← metadata_summary_for_content content_key
    pure (title_in summary)

  unfoldable pub price_for_content : String → Exec ℕ
  price_for_content content_key =
      catch (get_course_price env self.enterprise_customer_uuid content_key)
        λ e. on_not_found e (raise e)

  unfoldable pub current_balance : Exec ℤ
  current_balance = do ledger ← ledger_or_raise self.ledger; gets (env.balance ledger)

  unfoldable pub total_deposits : Exec ℤ
  total_deposits = do ledger ← ledger_or_raise self.ledger; gets (env.total_deposits ledger)

  unfoldable pub is_redeemable : String → Option ℤ → Exec (Bool × ℕ)
  is_redeemable content_key requested_price_cents = do
    canonical_price_cents ← price_for_content content_key
    content_price ← lift (content_price_for requested_price_cents canonical_price_cents)
    balance ← current_balance
    pure (leb_ℤ (pos content_price) balance, content_price)

-- `bump` counts an enrollment of a learner, in the order of the rows
abbrev pub bump : ℕ → ℕ → List (ℕ × ℕ) → List (ℕ × ℕ)
bump lms_user_id n [] = (lms_user_id, n) ∷ []
bump lms_user_id n ((other, total) ∷ groups) =
    let rest = bump lms_user_id n groups in
    if other == lms_user_id then (other, total + n) ∷ groups else (other, total) ∷ rest

-- `Count('content_key')` leaves out nulls
abbrev pub content_count : Transaction → ℕ
content_count t = if is_some t.content_key then 1 else 0

abbrev pub count_for : Option ℕ → Transaction → List (ℕ × ℕ) → List (ℕ × ℕ)
count_for none t groups = groups
count_for (some lms_user_id) t groups = bump lms_user_id (content_count t) groups

-- `values('lms_user_id').annotate(total=Count('content_key'))`
unfoldable pub totals : List Transaction → List (ℕ × ℕ)
totals [] = []
totals (t ∷ ts) = count_for t.lms_user_id t (totals ts)

abbrev pub of_policy : Option ℕ → Transaction → Bool
of_policy none t = true
of_policy (some policy) t = opt_eq t.subsidy_access_policy_uuid policy

module _ (self : Subsidy) where
  -- all_transactions: a Subsidy without a ledger has none here, where the code raises
  unfoldable pub all_transactions : World → List Transaction
  all_transactions w = filter (λ t. opt_eq self.ledger t.ledger_uuid) w.transactions

  unfoldable transactions_for_learner : ℕ → World → List Transaction
  transactions_for_learner lms_user_id w =
      filter (λ t. opt_eq t.lms_user_id lms_user_id) (all_transactions w)

  unfoldable transactions_for_content : String → World → List Transaction
  transactions_for_content content_key w =
      filter (λ t. opt_str_eq t.content_key content_key) (all_transactions w)

  unfoldable pub transactions_for_learner_and_content : ℕ → String → World → List Transaction
  transactions_for_learner_and_content lms_user_id content_key w =
      filter (λ t. opt_eq t.lms_user_id lms_user_id && opt_str_eq t.content_key content_key)
        (all_transactions w)

  unfoldable pub get_committed_transaction_no_reversal : ℕ → String → World → Option Transaction
  get_committed_transaction_no_reversal lms_user_id content_key w =
      find (λ t. is_committed t.state && not (is_reversed w.reversals t))
        (transactions_for_learner_and_content lms_user_id content_key w)

  unfoldable pub aggregated_enrollments_from_transactions : Option ℕ → World → List (ℕ × ℕ)
  unfolding all_transactions totals
  aggregated_enrollments_from_transactions subsidy_access_policy_uuid w = totals (
      filter (of_policy subsidy_access_policy_uuid) (
        filter
          (λ t. not (is_reversed w.reversals t) && (is_committed t.state && is_some t.lms_user_id))
          (all_transactions w)))
