-- ===== src/Schema/Remote.antt =====
-- What the service sends to other services and what they answer.
use edx_enterprise_subsidy.Common.{ℕ, String, Bool, Option, List}
use edx_enterprise_subsidy.Common.Int.{ℤ}
use edx_enterprise_subsidy.Schema.Ledger.{TransactionState, Json, ReversalKey}
use edx_enterprise_subsidy.Schema.Catalog.{DateValue}

-- The entry of `enrollments_info` that `EnterpriseApiClient.enroll` builds.
pub record EnrollmentInfo : Type 0 where
  pub user_id : ℕ
  pub course_run_key : String
  pub transaction_id : ℕ
  pub force_enrollment : Bool

-- `response["successes"]`, and the reference id of each success; both keys may be missing, and the
-- id may be null.
abbrev pub EnrollmentResponse : Type 0
EnrollmentResponse = Option (List (Option (Option String)))

pub record CustomerData : Type 0 where
  pub auth_org_id : Option String
  pub enable_data_sharing_consent : Bool

pub record EnterpriseCourseEnrollment : Type 0 where
  pub course_id : String
  pub created : DateValue
  pub unenrolled_at : DateValue

-- A row of the recent unenrollments, and the payload of the revocation event.
pub record Unenrollment : Type 0 where
  pub uuid : String
  pub transaction_id : ℕ
  pub enterprise_course_enrollment : EnterpriseCourseEnrollment

pub record UserData : Type 0 where
  pub email : Option String

-- The payload of GEAG's `create_enterprise_allocation`. A price is in cents here, so that
-- `normalPrice` in dollars is a hundredth of it; `data_share_consent` is a text, as code points.
pub record AllocationPayload : Type 0 where
  pub payment_reference : ℕ
  pub enterprise_customer_uuid : ℕ
  pub currency : String
  pub product_id : Option String
  pub quantity : ℕ
  pub normal_price : ℤ
  pub discount : ℤ
  pub final_price : ℤ
  pub first_name : Json
  pub last_name : Json
  pub email : Json
  pub date_of_birth : Json
  pub terms_accepted_at : Json
  pub data_share_consent : List ℕ
  pub org_id : Option String

-- GEAG's answer: whether `raise_for_status` passes, and `orderUuid`.
pub record AllocationResponse : Type 0 where
  pub is_ok : Bool
  pub order_uuid : Option String

pub data Request : Type 0 where
  bulk_enroll : ℕ → List EnrollmentInfo → Request
  cancel_fulfillment : String → Request
  fetch_unenrollments : ℕ → Request
  customer_data : ℕ → Request
  content_metadata : String → Request
  customer_content_metadata : ℕ → String → Request
  user_data : ℕ → Request
  create_allocation : AllocationPayload → Request
  cancel_allocation : String → Request

-- openedx_events' LedgerTransactionReversal and LedgerTransaction
pub record LedgerTransactionReversal : Type 0 where
  pub uuid : ℕ
  pub idempotency_key : ReversalKey
  pub quantity : ℤ
  pub state : TransactionState

pub record LedgerTransaction : Type 0 where
  pub uuid : ℕ
  pub idempotency_key : String
  pub quantity : ℤ
  pub state : TransactionState
  pub ledger_uuid : ℕ
  pub subsidy_access_policy_uuid : Option ℕ
  pub lms_user_id : Option ℕ
  pub content_key : Option String
  pub parent_content_key : Option String
  pub fulfillment_identifier : Option String
  pub reversal : Option LedgerTransactionReversal

pub data Event : Type 0 where
  transaction_created : LedgerTransaction → Event
  transaction_committed : LedgerTransaction → Event
  transaction_failed : LedgerTransaction → Event
  transaction_reversed : LedgerTransaction → Event
