-- ===== src/Samples.antt =====
-- A small service to run the program on: one subsidy of one enterprise, one learner, one course run,
-- a ledger that stores what it is asked for, and services that answer every request.
use edx_enterprise_subsidy.Common.{
  ℕ, ◌+◌, ◌==◌, ◌&&◌, Bool, str_eq, find, String, true, false, Option, none, some, List, [], ◌∷◌,
  ◌++◌, length,
}
use edx_enterprise_subsidy.Common.Int.{pos, negsuc}
use edx_enterprise_subsidy.Schema.Ledger.{
  Transaction, NewTransaction, TransactionState, Reversal, ReversalKey, Json, Metadata,
  ExternalTransactionReference, Deposit, NewDeposit,
}
use edx_enterprise_subsidy.Schema.Subsidy.{Subsidy, RevenueCategory}
use edx_enterprise_subsidy.Schema.Catalog.{ContentData, CourseRun, DateValue, PriceValue}
use edx_enterprise_subsidy.Schema.Remote.{Unenrollment}
use edx_enterprise_subsidy.Service.{Env, World, Result, ok, err, Exec, Exception}

abbrev pub run_key : String
run_key = "course-v1:edX+Demo+2024"

-- a course run for 100 dollars
abbrev sample_run : CourseRun
sample_run = record {
  key = some run_key;
  uuid = some "run-1";
  variant_id = none;
  first_enrollable_paid_seat_price = some (PriceValue.text 100 1);
  seats = [];
  enrollment_end = none;
  start = some (DateValue.datetime 5000000);
}

abbrev pub sample_content : ContentData
sample_content = record {
  is_empty = false;
  run = sample_run;
  content_type = some "courserun";
  title = some "Demo";
  product_source = none;
  entitlements = [];
  normalized_metadata_by_run = [];
  additional_metadata = none;
  advertised_course_run_uuid = none;
  course_runs = [];
  aggregation_key = some (some "courserun:edX+Demo");
}

abbrev pub sample_subsidy : Subsidy
sample_subsidy = record {
  uuid = 1;
  title = some "Credit";
  starting_balance = pos 100000;
  ledger = some 11;
  unit = "usd_cents";
  reference_id = some "opp-1";
  reference_type = "sf";
  enterprise_customer_uuid = 21;
  internal_only = false;
  revenue_category = RevenueCategory.bulk_enrollment_prepay;
  active_datetime = some 0;
  expiration_datetime = some 9000000;
  is_soft_deleted = false;
}

abbrev geag_metadata : Metadata
geag_metadata =
    ("geag_first_name", Json.text "Ada")
    ∷ ("geag_last_name", Json.text "Byron")
    ∷ ("geag_email", Json.text "ada@example.com")
    ∷ ("geag_date_of_birth", Json.text "1990-01-01")
    ∷ ("geag_terms_accepted_at", Json.text "2024-01-01")
    ∷ []

abbrev pub made : NewTransaction → List Transaction → Transaction
made new rows = record {
  uuid = 100 + length rows;
  ledger_uuid = new.ledger_uuid;
  idempotency_key = new.idempotency_key;
  quantity = new.quantity;
  state = TransactionState.created;
  lms_user_id = new.lms_user_id;
  lms_user_email = new.lms_user_email;
  content_key = new.content_key;
  parent_content_key = new.parent_content_key;
  content_title = new.content_title;
  subsidy_access_policy_uuid = new.subsidy_access_policy_uuid;
  fulfillment_identifier = none;
  metadata = new.metadata;
}

-- a uuid that no transaction and no reversal has
abbrev pub total : {A : Type 0} → (A → ℕ) → List A → ℕ
total f [] = 0
total f (x ∷ xs) = f x + total f xs

abbrev pub next_uuid : World → ℕ
next_uuid w =
    100 + (total (λ t. t.uuid) w.transactions + total (λ r. r.transaction_uuid) w.reversals)

abbrev pub get_or_make :
    Option Transaction → NewTransaction → World → Result (Transaction × List Transaction)
get_or_make (some existing) new w = ok (existing, w.transactions)
get_or_make none new w =
    let t = record (made new []) { uuid = next_uuid w } in ok (t, w.transactions ++ t ∷ [])

-- the row of the same ledger and key, or a new one
abbrev pub has_key : NewTransaction → Transaction → Bool
has_key new t = (t.ledger_uuid == new.ledger_uuid) && str_eq t.idempotency_key new.idempotency_key

abbrev pub sample_create : NewTransaction → World → Result (Transaction × List Transaction)
sample_create new w = get_or_make (find (has_key new) w.transactions) new w

abbrev pub reversal_of : Transaction → ReversalKey → World → Reversal
reversal_of t key w = record {
  uuid = 200 + length w.reversals;
  transaction_uuid = t.uuid;
  idempotency_key = key;
  quantity = pos 10000;
  state = TransactionState.committed;
}

-- the receiver's answer, and its state with the reversal in the table
abbrev pub answer_reversed :
    Reversal → List Reversal → Result (Unit {0}) × World → Result Reversal × World
answer_reversed r before (ok _, w) = (ok r, record w { reversals = r ∷ before })
answer_reversed r before (err e, w) = (err e, record w { reversals = before })

abbrev sample_reverse : (Reversal → Exec (Unit {0})) → Transaction → ReversalKey → Exec Reversal
sample_reverse receiver t key w =
    let r = reversal_of t key w in
    answer_reversed r w.reversals (receiver r (record w { reversals = r ∷ w.reversals }))

abbrev pub sample_unenrollment : Unenrollment
sample_unenrollment = record {
  uuid = "f1";
  transaction_id = 100;
  enterprise_course_enrollment = record {
    course_id = run_key;
    created = DateValue.datetime 1000;
    unenrolled_at = DateValue.datetime 2000;
  };
}

abbrev or_zero : Option ℕ → ℕ
or_zero none = 0
or_zero (some n) = n

-- a deposit whose transaction is left out
abbrev sample_deposit :
    NewDeposit → World → Result (Option Deposit × List Transaction × List Deposit)
sample_deposit new w =
    let deposit : Deposit = record {
      uuid = 300 + length w.deposits;
      ledger_uuid = or_zero new.ledger_uuid;
      desired_deposit_quantity = new.quantity;
      transaction_uuid = 400;
      sales_contract_reference_id = new.sales_contract_reference_id;
      sales_contract_reference_provider = new.sales_contract_reference_provider;
    } in
    ok (some deposit, w.transactions, deposit ∷ w.deposits)

abbrev pub sample_env : Env
sample_env = record {
  create_transaction = sample_create;
  create_deposit = sample_deposit;
  create_idempotency_key = λ new w. "generated";
  reverse_full_transaction = sample_reverse;
  balance = λ ledger w. pos 100000;
  total_deposits = λ ledger w. pos 100000;
  subset_balance = λ ledger rows w. negsuc 9999;
  bulk_enroll = λ w. ok (some (some (some "f1") ∷ []));
  cancel_fulfillment = λ w. ok tt;
  fetch_unenrollments = λ w. ok (sample_unenrollment ∷ []);
  customer_data =
      λ w. ok (record { auth_org_id = some "org"; enable_data_sharing_consent = false });
  content_metadata = λ w. ok (sample_content ∷ []);
  customer_content_metadata = λ w. ok sample_content;
  user_data = λ w. ok ((record { email = some "ada@example.com" }) ∷ []);
  create_allocation = λ w. ok (record { is_ok = true; order_uuid = some "order-1" });
  cancel_allocation = λ w. ok tt;
  now = λ w. 3000;
  is_cached = λ w key. true;
  fromisoformat = λ s. err Exception.value_error;
}

-- the same run, offered by GEAG as variant "v1"
abbrev geag_content : ContentData
geag_content = record sample_content { additional_metadata = some (some "v1") }

-- the course is GEAG's, and the enterprise service refuses to enroll
abbrev pub refusing_env : Env
refusing_env = record sample_env {
  customer_content_metadata = λ w. ok geag_content;
  bulk_enroll = λ w. err (Exception.http_error 500);
}

abbrev pub sample_world : World
sample_world = record {
  transactions = [];
  reversals = [];
  references = [];
  deposits = [];
  subsidies = sample_subsidy ∷ [];
  events = [];
  requests = [];
  content_cache = [];
  customer_cache = [];
  user_cache = [];
}

abbrev pub sample_new : NewTransaction
sample_new = record {
  ledger_uuid = 11;
  quantity = negsuc 9999;
  idempotency_key = "";
  lms_user_id = some 7;
  lms_user_email = some "ada@example.com";
  content_key = some run_key;
  parent_content_key = none;
  content_title = some "Demo";
  subsidy_access_policy_uuid = some 31;
  metadata = geag_metadata;
}

-- the pending transaction of `sample_new`
abbrev pub sample_pending : Transaction
sample_pending = record (made sample_new []) { state = TransactionState.pending }

-- a committed transaction with an enrollment and a fulfillment of GEAG's
abbrev pub sample_committed : Transaction
sample_committed = record sample_pending {
  state = TransactionState.committed;
  fulfillment_identifier = some "f1";
}

abbrev pub sample_reference : ExternalTransactionReference
sample_reference = record {
  transaction_uuid = 100;
  provider_slug = "geag";
  external_reference_id = "order-1";
}

abbrev pub committed_world : World
committed_world = record sample_world {
  transactions = sample_committed ∷ [];
  references = sample_reference ∷ [];
}
