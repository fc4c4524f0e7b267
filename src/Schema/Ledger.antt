-- ===== src/Schema/Ledger.antt =====
-- The rows of the openedx_ledger tables that enterprise_subsidy/apps reads and writes: transactions,
-- their reversals and external references. A uuid is a number, since it is only compared; a
-- table is the list of its rows, in the order in which a query without `order_by` returns them.
use edx_enterprise_subsidy.Common.{
  ℕ, String, Bool, true, false, Option, List, [], ◌∷◌, ◌==◌, if◌then◌else◌, str_eq, not,
}
use edx_enterprise_subsidy.Common.Int.{ℤ}
use edx_enterprise_subsidy.Schema.Catalog.{DateValue}

-- TransactionStateChoices
pub data TransactionState : Type 0 where
  created pending committed failed : TransactionState

abbrev pub is_committed : TransactionState → Bool
is_committed TransactionState.committed = true
is_committed _ = false

-- The values of a transaction's JSON metadata that the program looks at.
pub data Json : Type 0 where
  null : Json
  bool : Bool → Json
  number : ℕ → Json
  text : String → Json

abbrev pub Metadata : Type 0
Metadata = List (String × Json)

-- `metadata.get(key, default)`
abbrev pub metadata_get : Metadata → String → Json → Json
metadata_get [] k default = default
metadata_get ((j, v) ∷ m) k default =
    let rest = metadata_get m k default in if str_eq j k then v else rest

-- `bool(value)`
abbrev pub truthy_json : Json → Bool
truthy_json Json.null = false
truthy_json (Json.bool b) = b
truthy_json (Json.number n) = not (n == 0)
truthy_json (Json.text s) = not (str_eq s "")

-- The text `unenrollment-reversal-{fulfillment_uuid}-{enrollment_unenrolled_at}`, by its parts, or
-- the key of a reversal that something else has written.
pub data ReversalKey : Type 0 where
  unenrollment : Option String → DateValue → ReversalKey
  other : String → ReversalKey

pub record Reversal : Type 0 where
  pub uuid : ℕ
  pub transaction_uuid : ℕ
  pub idempotency_key : ReversalKey
  pub quantity : ℤ
  pub state : TransactionState

pub record Transaction : Type 0 where
  pub uuid : ℕ
  pub ledger_uuid : ℕ
  pub idempotency_key : String
  pub quantity : ℤ
  pub state : TransactionState
  pub lms_user_id : Option ℕ
  pub lms_user_email : Option String
  pub content_key : Option String
  pub parent_content_key : Option String
  pub content_title : Option String
  pub subsidy_access_policy_uuid : Option ℕ
  pub fulfillment_identifier : Option String
  pub metadata : Metadata

-- The arguments of `openedx_ledger.api.create_transaction`.
pub record NewTransaction : Type 0 where
  pub ledger_uuid : ℕ
  pub quantity : ℤ
  pub idempotency_key : String
  pub lms_user_id : Option ℕ
  pub lms_user_email : Option String
  pub content_key : Option String
  pub parent_content_key : Option String
  pub content_title : Option String
  pub subsidy_access_policy_uuid : Option ℕ
  pub metadata : Metadata

pub record ExternalTransactionReference : Type 0 where
  pub transaction_uuid : ℕ
  pub provider_slug : String
  pub external_reference_id : String

-- the provider is a slug
pub record Deposit : Type 0 where
  pub uuid : ℕ
  pub ledger_uuid : ℕ
  pub desired_deposit_quantity : ℤ
  pub transaction_uuid : ℕ
  pub sales_contract_reference_id : String
  pub sales_contract_reference_provider : String

-- The arguments of `openedx_ledger.api.create_deposit`.
pub record NewDeposit : Type 0 where
  pub ledger_uuid : Option ℕ
  pub quantity : ℤ
  pub sales_contract_reference_id : String
  pub sales_contract_reference_provider : String
  pub idempotency_key : Option String
  pub metadata : Metadata
