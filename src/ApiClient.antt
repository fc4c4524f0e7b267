-- ===== src/ApiClient.antt =====
-- apps/api_client: the clients of the enterprise (edx-platform) and LMS user services. Logging and
-- the construction of URLs are left out; an exception other than HTTPError is passed on as it is.
pub mod Quiet
use edx_enterprise_subsidy.Common.{
  ℕ, ◌-◌, String, false, Option, none, some, List, [], ◌∷◌, if◌then◌else◌, find, opt_eq,
}
use edx_enterprise_subsidy.Schema.Ledger.{Transaction, Json, metadata_get, truthy_json}
use edx_enterprise_subsidy.Schema.Subsidy.{Subsidy}
use edx_enterprise_subsidy.Schema.Remote.{
  Request, EnrollmentInfo, EnrollmentResponse, CustomerData, Unenrollment, UserData,
}
use edx_enterprise_subsidy.Service.{
  Env, Result, ok, err, CacheKey, Exec, Exception, pure, raise, lift, catch, ◌>>=◌, ◌>>◌, modify,
  call,
}
use edx_enterprise_subsidy.ContentMetadata.{find_cached}

-- `transaction.ledger.subsidy`
abbrev pub or_raise : Option Subsidy → Exec Subsidy
or_raise none = raise Exception.does_not_exist
or_raise (some subsidy) = pure subsidy

unfoldable pub subsidy_of : Transaction → Exec Subsidy
subsidy_of transaction w =
    or_raise (find (λ subsidy. opt_eq subsidy.ledger transaction.ledger_uuid) w.subsidies) w

-- the two checks of `enroll` on the answer, and the id that it returns
abbrev pub reference_id : EnrollmentResponse → Result (Option String)
reference_id (some (some id ∷ [])) = ok id
reference_id _ = err Exception.enrollment

abbrev pub enrollment_info : ℕ → String → Transaction → EnrollmentInfo
enrollment_info lms_user_id course_run_key transaction = record {
  user_id = lms_user_id;
  course_run_key = course_run_key;
  transaction_id = transaction.uuid;
  force_enrollment =
      truthy_json (metadata_get transaction.metadata "allow_late_enrollment" (Json.bool false));
}

-- timedelta(hours=24 * 7), in seconds
abbrev unenrollment_window : ℕ
unenrollment_window = 604800

abbrev last_user : List UserData → Option UserData
last_user [] = none
last_user (user ∷ []) = some user
last_user (user ∷ other ∷ rest) = last_user (other ∷ rest)

module _ (env : Env) where
  unfoldable pub bulk_enroll_enterprise_learners : ℕ → List EnrollmentInfo → Exec EnrollmentResponse
  bulk_enroll_enterprise_learners customer infos =
      call (Request.bulk_enroll customer infos) env.bulk_enroll

  unfoldable pub enroll : ℕ → String → Transaction → Exec (Option String)
  unfolding subsidy_of bulk_enroll_enterprise_learners
  enroll lms_user_id course_run_key transaction = do
    subsidy ← subsidy_of transaction
    response ←
        bulk_enroll_enterprise_learners subsidy.enterprise_customer_uuid
          (enrollment_info lms_user_id course_run_key transaction ∷ [])
    lift (reference_id response)

  unfoldable pub client_cancel_fulfillment : String → Exec (Unit {0})
  client_cancel_fulfillment enterprise_fulfillment_uuid =
      call (Request.cancel_fulfillment enterprise_fulfillment_uuid) env.cancel_fulfillment

  unfoldable pub get_enterprise_customer_data : ℕ → Exec CustomerData
  get_enterprise_customer_data customer = call (Request.customer_data customer) env.customer_data

  unfoldable pub fetch_recent_unenrollments : Exec (List Unenrollment)
  fetch_recent_unenrollments w =
      call (Request.fetch_unenrollments (env.now w - unenrollment_window)) env.fetch_unenrollments w

  unfoldable pub get_user_data : ℕ → Exec (Option UserData)
  get_user_data lms_user_id = do
    data' ← call (Request.user_data lms_user_id) env.user_data
    pure (last_user data')

  -- `cache.set`
  abbrev pub remember_user : CacheKey → Option UserData → Exec (Option UserData)
  remember_user key none = pure none
  remember_user key (some user) = do
    modify (λ w. record w { user_cache = (key, user) ∷ w.user_cache })
    pure (some user)

  abbrev pub user_unless_cached :
      Option UserData → CacheKey → Exec (Option UserData) → Exec (Option UserData)
  user_unless_cached (some user) key fetch = pure (some user)
  user_unless_cached none key fetch = fetch >>= remember_user key

  abbrev pub none_on_http_error : Exception → Exec (Option UserData)
  none_on_http_error (Exception.http_error code) = pure none
  none_on_http_error e = raise e

  unfoldable pub best_effort_user_data : ℕ → Exec (Option UserData)
  unfolding get_user_data
  best_effort_user_data lms_user_id w =
      let key = CacheKey.lms_user lms_user_id in
      let cached = if env.is_cached w key then find_cached key w.user_cache else none in
      catch (user_unless_cached cached key (get_user_data lms_user_id)) none_on_http_error w
