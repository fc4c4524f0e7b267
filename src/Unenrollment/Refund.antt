-- ===== src/Unenrollment/Refund.antt =====
-- The refund rule of unenrollments.
use edx_enterprise_subsidy.Common.{ℕ, ◌+◌, ◌<◌, ◌≡◌, ◌↔◌, ◌⊎◌, true, false, none, some, arith}
use edx_enterprise_subsidy.Schema.Catalog.{DateValue, ContentData}
use edx_enterprise_subsidy.Schema.Remote.{EnterpriseCourseEnrollment}
use edx_enterprise_subsidy.Service.{Env, ok}
use edx_enterprise_subsidy.Unenrollment.{
  truthy_date, course_start_date, normalize_to_datetime, unenrollment_can_be_refunded,
}

module _ (env : Env) (content : ContentData) (enrollment : EnterpriseCourseEnrollment) where
  -- For a course with a start date, and dates that parse, an unenrollment is refundable exactly if
  -- it came less than 14 days after the enrollment or less than 14 days after the course start.
  pub unenrollment_can_be_refunded_iff :
      (start : DateValue) (course_start created unenrolled_at : ℕ)
      → truthy_date (course_start_date content enrollment.course_id) ≡ some start
      → normalize_to_datetime env start ≡ ok course_start
      → normalize_to_datetime env enrollment.created ≡ ok created
      → normalize_to_datetime env enrollment.unenrolled_at ≡ ok unenrolled_at
      → (unenrollment_can_be_refunded env content enrollment ≡ ok true)
        ↔ ((unenrolled_at < created + 1209600) ⊎ (unenrolled_at < course_start + 1209600))
  unfolding unenrollment_can_be_refunded
  unenrollment_can_be_refunded_iff start course_start created unenrolled_at h s c u =
      rw (h, s, c, u) (ground arith)

  -- Without a start date of the course nothing is refunded, whatever the enrollment's dates.
  not_refunded_without_start :
      truthy_date (course_start_date content enrollment.course_id) ≡ none
      → unenrollment_can_be_refunded env content enrollment ≡ ok false
  unfolding unenrollment_can_be_refunded
  not_refunded_without_start h = rw h
