-- ===== src/Reversals/DryRun.antt =====
-- The --dry-run flag of the two commands.
use edx_enterprise_subsidy.Common.{String, refl, true, Option, none, some, List, [], ◌∷◌}
use edx_enterprise_subsidy.Schema.Ledger.{Transaction}
use edx_enterprise_subsidy.Schema.Remote.{Unenrollment}
use edx_enterprise_subsidy.Service.{Env, pure}
use edx_enterprise_subsidy.Schema.Catalog.{ContentData}
use edx_enterprise_subsidy.Service.Asking.{Asking, Asking-bind, asking_rules}
use edx_enterprise_subsidy.ContentMetadata.Caching.{get_content_metadata-Asking}
use edx_enterprise_subsidy.Service.Quiet.{Quiet, quiet_rules}
use edx_enterprise_subsidy.ApiClient.{fetch_recent_unenrollments}
use edx_enterprise_subsidy.Unenrollment.{if_found}
use edx_enterprise_subsidy.Reversals.Written.{memo_step-Quiet}
use edx_enterprise_subsidy.Reversals.{
  Memo, fetched_or, reverse_if_refundable, handle_reversing_enterprise_course_unenrollment,
  process_unenrollments, write_reversals_from_enterprise_unenrollments,
}

module _ (env : Env) where
  reverse_if_refundable-Quiet :
      (unenrollment : Unenrollment) (memo : Memo) (t : Transaction)
      → Quiet (reverse_if_refundable env true unenrollment memo t)
  unfolding reverse_if_refundable
  reverse_if_refundable-Quiet unenrollment memo t = search (quiet_rules, memo_step-Quiet)

  if_found-Quiet :
      (unenrollment : Unenrollment) (memo : Memo) (found : Option Transaction)
      → Quiet
          (if_found env found (reverse_if_refundable env true unenrollment memo) (pure (0, memo)))
  if_found-Quiet unenrollment memo none = search quiet_rules
  if_found-Quiet unenrollment memo (some t) = reverse_if_refundable-Quiet unenrollment memo t

  handle-Quiet :
      (unenrollment : Unenrollment) (memo : Memo)
      → Quiet (handle_reversing_enterprise_course_unenrollment env true unenrollment memo)
  unfolding handle_reversing_enterprise_course_unenrollment
  handle-Quiet unenrollment memo = search (quiet_rules, if_found-Quiet)

  process-Quiet :
      (unenrollments : List Unenrollment) (memo : Memo)
      → Quiet (process_unenrollments env true unenrollments memo)
  unfolding process_unenrollments
  process-Quiet [] memo = search quiet_rules
  process-Quiet (unenrollment ∷ rest) memo = search (quiet_rules, handle-Quiet, process-Quiet rest)

  fetched_or-Asking :
      (key : String) (memo : Memo) (found : Option ContentData)
      → Asking (fetched_or env key memo found)
  fetched_or-Asking key memo (some content) = search asking_rules
  fetched_or-Asking key memo none = search (asking_rules, get_content_metadata-Asking)

  reverse_if_refundable-Asking :
      (unenrollment : Unenrollment) (memo : Memo) (t : Transaction)
      → Asking (reverse_if_refundable env true unenrollment memo t)
  unfolding reverse_if_refundable
  reverse_if_refundable-Asking unenrollment memo t = search (asking_rules, fetched_or-Asking)

  if_found-Asking :
      (unenrollment : Unenrollment) (memo : Memo) (found : Option Transaction)
      → Asking
          (if_found env found (reverse_if_refundable env true unenrollment memo) (pure (0, memo)))
  if_found-Asking unenrollment memo none = search asking_rules
  if_found-Asking unenrollment memo (some t) = reverse_if_refundable-Asking unenrollment memo t

  handle-Asking :
      (unenrollment : Unenrollment) (memo : Memo)
      → Asking (handle_reversing_enterprise_course_unenrollment env true unenrollment memo)
  unfolding handle_reversing_enterprise_course_unenrollment
  handle-Asking unenrollment memo = search (asking_rules, if_found-Asking)

  process-Asking :
      (unenrollments : List Unenrollment) (memo : Memo)
      → Asking (process_unenrollments env true unenrollments memo)
  unfolding process_unenrollments
  process-Asking [] memo = search asking_rules
  process-Asking (unenrollment ∷ rest) memo =
      search (asking_rules, handle-Asking, process-Asking rest)

  fetch-Asking : Asking (fetch_recent_unenrollments env)
  unfolding fetch_recent_unenrollments
  fetch-Asking = record { at = λ w. refl }

  -- With --dry-run the command leaves all tables and the event bus as they are, however it ends, and
  -- sends no request but queries: it cancels nothing, in the LMS or at GEAG.
  pub write_reversals-dry_run :
      Quiet (write_reversals_from_enterprise_unenrollments env true)
      × Asking (write_reversals_from_enterprise_unenrollments env true)
  unfolding write_reversals_from_enterprise_unenrollments fetch_recent_unenrollments
  write_reversals-dry_run = (
    search (quiet_rules, process-Quiet),
    Asking-bind (fetch_recent_unenrollments env)
        (λ recent. process_unenrollments env true recent []) fetch-Asking
        (λ recent. process-Asking recent []),
  )
