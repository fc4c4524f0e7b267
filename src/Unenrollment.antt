-- ===== src/Unenrollment.antt =====
-- apps/transaction: the refund rule of utils.py, the cancellations and reversal of api.py, and the
-- receivers of signals/handlers.py. Logging is left out.
pub mod Refund
pub mod Cancellation
pub mod Revocation
use edx_enterprise_subsidy.Common.{
  ℕ, ◌+◌, String, Bool, true, false, not, ◌&&◌, Option, none, some, List, [], ◌∷◌, ◌==◌,
  if◌then◌else◌, ltb, str_eq, opt_str_eq, truthy_text, filter, any, find_row,
}
use Prim.Native.Nat.{max}
use edx_enterprise_subsidy.Schema.Ledger.{
  Transaction, TransactionState, Reversal, ReversalKey, ExternalTransactionReference, is_committed,
}
use edx_enterprise_subsidy.Schema.Catalog.{DateValue, CourseRun, ContentData}
use edx_enterprise_subsidy.Schema.Remote.{Unenrollment, EnterpriseCourseEnrollment}
use edx_enterprise_subsidy.Service.{
  Env, World, Result, ok, err, Exec, Exception, pure, raise, gets, lift, proceed, rescue, catch,
  ◌>>=◌, ◌>>◌, raise_if,
}
use edx_enterprise_subsidy.ContentMetadata.{get_content_metadata}
use edx_enterprise_subsidy.ApiClient.{client_cancel_fulfillment}
use edx_enterprise_subsidy.Fulfillment.{cancel_external, external_fulfillment_provider_slug}
use edx_enterprise_subsidy.Subsidy.{is_reversed}
use edx_enterprise_subsidy.Redemption.{send_transaction_reversed_event}

-- timedelta(days=14), in seconds
abbrev refund_window : ℕ
refund_window = 1209600

-- `bool(start)`: an empty text is false
abbrev pub truthy_date : Option DateValue → Option DateValue
truthy_date none = none
truthy_date (some (DateValue.datetime t)) = some (DateValue.datetime t)
truthy_date (some (DateValue.iso s)) = if str_eq s "" then none else some (DateValue.iso s)

-- the loop over `course_runs`
unfoldable start_of_run : String → List CourseRun → Option DateValue
start_of_run key [] = none
start_of_run key (run ∷ rest) =
    let others = start_of_run key rest in if opt_str_eq run.key key then run.start else others

unfoldable pub course_start_date : ContentData → String → Option DateValue
unfolding start_of_run
course_start_date content key =
    if opt_str_eq content.content_type "courserun"
    then content.start
    else start_of_run key content.course_runs

unfoldable pub generate_transaction_reversal_idempotency_key :
    Option String → DateValue → ReversalKey
generate_transaction_reversal_idempotency_key = ReversalKey.unenrollment

-- a catalog that has nothing gives None, which has no `get`
abbrev pub content_or_raise : Option ContentData → Result ContentData
content_or_raise none = err Exception.attribute_error
content_or_raise (some content) = ok content

-- `transaction.external_reference.all()`
abbrev pub references_of : Transaction → World → List ExternalTransactionReference
references_of t w = filter (λ r. r.transaction_uuid == t.uuid) w.references

abbrev pub is_geag : ExternalTransactionReference → Bool
is_geag reference = str_eq reference.provider_slug external_fulfillment_provider_slug

-- `Transaction.objects.filter(uuid=...).first()`, kept where it is committed and not reversed
abbrev pub reversible : World → Option Transaction → Option Transaction
reversible w none = none
reversible w (some t) =
    if is_committed t.state && not (is_reversed w.reversals t) then some t else none

abbrev pub or_missing : Option Transaction → Exec Transaction
or_missing none = raise Exception.does_not_exist
or_missing (some t) = pure t

-- the row of a transaction, as `refresh_from_db` or a related object reads it
unfoldable pub load : ℕ → Exec Transaction
load u w = or_missing (find_row (λ (t : Transaction). t.uuid) u w.transactions) w

module _ (env : Env) where
  unfoldable pub normalize_to_datetime : DateValue → Result ℕ
  normalize_to_datetime (DateValue.iso s) = env.fromisoformat s
  normalize_to_datetime (DateValue.datetime t) = ok t

  infixl 5 ◌andthen◌
  abbrev pub ◌andthen◌ : {A B : Type 0} → Result A → (A → Result B) → Result B
  ok a andthen f = f a
  err e andthen f = err e

  abbrev refundable_from : Option DateValue → EnterpriseCourseEnrollment → Result Bool
  refundable_from none enrollment = ok false
  refundable_from (some start) enrollment =
      normalize_to_datetime enrollment.created andthen λ created.
      normalize_to_datetime enrollment.unenrolled_at andthen λ unenrolled_at.
      normalize_to_datetime start andthen λ course_start.
      ok (ltb unenrolled_at (max course_start created + refund_window))

  unfoldable pub unenrollment_can_be_refunded :
      ContentData → EnterpriseCourseEnrollment → Result Bool
  unfolding course_start_date normalize_to_datetime
  unenrollment_can_be_refunded content enrollment =
      refundable_from (truthy_date (course_start_date content enrollment.course_id)) enrollment

  -- the loop of `cancel_transaction_external_fulfillment`, from the flag so far
  unfoldable pub cancel_references : Bool → List ExternalTransactionReference → Exec Bool
  cancel_references successful [] = pure successful
  cancel_references successful (reference ∷ rest) = elim (is_geag reference) [
    | true ↦ do cancel_external env reference; cancel_references true rest
    | false ↦ cancel_references successful rest
  ]

  abbrev pub cancel_all : List ExternalTransactionReference → Exec Bool
  cancel_all [] = pure true
  cancel_all (reference ∷ rest) = cancel_references false (reference ∷ rest)

  unfoldable pub cancel_transaction_external_fulfillment : Transaction → Exec Bool
  cancel_transaction_external_fulfillment t = do
    raise_if (not (is_committed t.state)) Exception.fulfillment_cancelation
    references ← gets (references_of t)
    cancel_all references

  abbrev identifier_or_raise : Option String → Exec String
  identifier_or_raise none = raise Exception.fulfillment_cancelation
  identifier_or_raise (some id) =
      if str_eq id "" then raise Exception.fulfillment_cancelation else pure id

  abbrev on_cancel_error : Exception → Exec (Unit {0})
  on_cancel_error (Exception.http_error code) = raise Exception.fulfillment_cancelation
  on_cancel_error e = raise e

  unfoldable pub cancel_transaction_fulfillment : Transaction → Exec (Unit {0})
  cancel_transaction_fulfillment t = do
    raise_if (not (is_committed t.state)) Exception.fulfillment_cancelation
    id ← identifier_or_raise t.fulfillment_identifier
    catch (client_cancel_fulfillment env id) on_cancel_error

  -- the receiver of TRANSACTION_REVERSED; its `except` clause raises the same exception again
  unfoldable pub listen_for_transaction_reversal : Reversal → Exec (Unit {0})
  listen_for_transaction_reversal reversal = do
    t ← load reversal.transaction_uuid
    raise_if (not (truthy_text t.fulfillment_identifier)) Exception.value_error
    cancel_transaction_external_fulfillment t
    cancel_transaction_fulfillment t
    send_transaction_reversed_event t

  abbrev pub time_or_now : Option DateValue → World → DateValue
  time_or_now none w = DateValue.datetime (env.now w)
  time_or_now (some t) w = t

  unfoldable pub reverse_transaction : Transaction → Option DateValue → Exec Reversal
  unfolding generate_transaction_reversal_idempotency_key
  reverse_transaction t unenroll_time = do
    time ← gets (time_or_now unenroll_time)
    reversal ←
        env.reverse_full_transaction listen_for_transaction_reversal t
          (generate_transaction_reversal_idempotency_key t.fulfillment_identifier time)
    refreshed ← load t.uuid
    send_transaction_reversed_event refreshed
    pure reversal

  -- the handler from the fetch of the content metadata on
  unfoldable pub refund_if_eligible : Unenrollment → Transaction → Exec (Unit {0})
  refund_if_eligible revoked t = do
    let enrollment = revoked.enterprise_course_enrollment
    found ← get_content_metadata env enrollment.course_id
    content ← lift (content_or_raise found)
    refundable ← lift (unenrollment_can_be_refunded content enrollment)
    if refundable
        then (do
          successfully_canceled ← cancel_transaction_external_fulfillment t
          if successfully_canceled
              then (do reverse_transaction t (some enrollment.unenrolled_at); pure tt)
              else pure tt)
        else pure tt

  abbrev pub if_found : {A : Type 0} → Option Transaction → (Transaction → Exec A) → Exec A → Exec A
  if_found none f other = other
  if_found (some t) f other = f t

  -- `enabled` is settings.ENABLE_HANDLE_LC_ENROLLMENT_REVOKED
  unfoldable pub handle_lc_enrollment_revoked : Bool → Unenrollment → Exec (Unit {0})
  handle_lc_enrollment_revoked false revoked = pure tt
  handle_lc_enrollment_revoked true revoked = do
    related ← gets (λ w.
        reversible w (find_row (λ (t : Transaction). t.uuid) revoked.transaction_id w.transactions))
    if_found related (refund_if_eligible revoked) (pure tt)
