-- ===== src/Unenrollment/Revocation.antt =====
-- The revocation handler: what it needs before it writes, and how the loop of events ends.
use edx_enterprise_subsidy.Common.{
  ◌≡◌, refl, Bool, true, false, Option, none, some, find_row, if◌then◌else◌,
}
use edx_enterprise_subsidy.Schema.Ledger.{Transaction}
use edx_enterprise_subsidy.Schema.Catalog.{ContentData}
use edx_enterprise_subsidy.Schema.Remote.{Unenrollment}
use edx_enterprise_subsidy.Service.{Env, World, Result, ok, err, Exec, proceed, pure, lift, ◌>>=◌}
use edx_enterprise_subsidy.Service.Quiet.{SameTables, SameTables-refl, SameTables-trans}
use edx_enterprise_subsidy.ContentMetadata.{get_content_metadata}
use edx_enterprise_subsidy.ContentMetadata.Caching.{get_content_metadata-Quiet}
use edx_enterprise_subsidy.Unenrollment.{
  reversible, content_or_raise, unenrollment_can_be_refunded,
  cancel_transaction_external_fulfillment, reverse_transaction, refund_if_eligible, if_found,
  handle_lc_enrollment_revoked,
}
use edx_enterprise_subsidy.Unenrollment.Cancellation.{cancel_transaction_external_fulfillment-Quiet}

-- the row that the handler looks at
abbrev pub related : Unenrollment → World → Option Transaction
related revoked w = find_row (λ (t : Transaction). t.uuid) revoked.transaction_id w.transactions

-- Every guard of the handler passes for transaction `t`: it is the event's, committed and not yet
-- reversed; its content's metadata is found; the unenrollment is refundable; and its external
-- fulfillments are cancelled.
pub record Eligible (env : Env) (revoked : Unenrollment) (w : World) : Type 0 where
  pub t : Transaction
  pub content : ContentData
  pub v : World
  pub is_reversible : reversible w (related revoked w) ≡ some t
  pub fetched :
      get_content_metadata env revoked.enterprise_course_enrollment.course_id w
      ≡ (ok (some content), v)
  pub refundable :
      unenrollment_can_be_refunded env content revoked.enterprise_course_enrollment ≡ ok true
  pub cancelled : (cancel_transaction_external_fulfillment env t v).0 ≡ ok true

module _ (env : Env) (revoked : Unenrollment) (w : World) where
  abbrev reverse : Transaction → Bool → Exec (Unit {0})
  reverse t cancelled =
      if cancelled
      then (reverse_transaction env t (some revoked.enterprise_course_enrollment.unenrolled_at)
          >>= λ _. pure tt)
      else pure tt

  blocked_at_cancel :
      (t : Transaction) (r : Result Bool) (v : World)
      → (r ≡ ok true → ⊥)
      → SameTables v (proceed r (reverse t) v).1
  blocked_at_cancel t (ok true) v h = absurd (h refl)
  blocked_at_cancel t (ok false) v h = SameTables-refl v
  blocked_at_cancel t (err e) v h = SameTables-refl v

  abbrev refund : Transaction → Bool → Exec (Unit {0})
  refund t refundable =
      if refundable then (cancel_transaction_external_fulfillment env t >>= reverse t) else pure tt

  blocked_at_refund :
      (t : Transaction) (r : Result Bool) (v : World)
      → (r ≡ ok true → (cancel_transaction_external_fulfillment env t v).0 ≡ ok true → ⊥)
      → SameTables v (proceed r (refund t) v).1
  blocked_at_refund t (ok true) v h =
      let (r, v') = cancel_transaction_external_fulfillment env t v in
      SameTables-trans v v' (proceed r (reverse t) v').1
        ((cancel_transaction_external_fulfillment-Quiet env t).at v)
        (blocked_at_cancel t r v' (h refl))
  blocked_at_refund t (ok false) v h = SameTables-refl v
  blocked_at_refund t (err e) v h = SameTables-refl v

  blocked_at_fetch :
      (t : Transaction) (r : Result (Option ContentData)) (v : World)
      → ((content : ContentData)
          → r ≡ ok (some content)
          → unenrollment_can_be_refunded env content revoked.enterprise_course_enrollment ≡ ok true
          → (cancel_transaction_external_fulfillment env t v).0 ≡ ok true
          → ⊥)
      → SameTables v
          (proceed r
            (λ found. lift (content_or_raise found) >>= λ content.
              lift (unenrollment_can_be_refunded env content revoked.enterprise_course_enrollment)
              >>= refund t)
            v).1
  blocked_at_fetch t (ok (some content)) v h =
      blocked_at_refund t
        (unenrollment_can_be_refunded env content revoked.enterprise_course_enrollment) v
        (h content refl)
  blocked_at_fetch t (ok none) v h = SameTables-refl v
  blocked_at_fetch t (err e) v h = SameTables-refl v

  blocked_at_guards :
      (found : Option Transaction)
      → reversible w (related revoked w) ≡ found
      → (Eligible env revoked w → ⊥)
      → SameTables w (if_found env found (refund_if_eligible env revoked) (pure tt) w).1
  unfolding refund_if_eligible
  blocked_at_guards none e h = SameTables-refl w
  blocked_at_guards (some t) e h =
      let (r, v) = get_content_metadata env revoked.enterprise_course_enrollment.course_id w in
      SameTables-trans w v _
        ((get_content_metadata-Quiet env revoked.enterprise_course_enrollment.course_id).at w)
        (blocked_at_fetch t r v λ content fetched refundable cancelled. h (record {
          t = t;
          content = content;
          v = v;
          is_reversible = e;
          fetched = λ i. (fetched i, v);
          refundable = refundable;
          cancelled = cancelled;
        }))

  -- Unless every guard passes, the handler writes no table and emits no event, however it ends: in
  -- particular for an unknown, uncommitted or already reversed transaction, an unenrollment past the
  -- refund window, and a fulfillment that could not be cancelled.
  pub handle_lc_enrollment_revoked_blocked :
      (enabled : Bool)
      → ¬ Eligible env revoked w
      → SameTables w (handle_lc_enrollment_revoked env enabled revoked w).1
  unfolding handle_lc_enrollment_revoked
  handle_lc_enrollment_revoked_blocked false h = SameTables-refl w
  handle_lc_enrollment_revoked_blocked true h =
      blocked_at_guards (reversible w (related revoked w)) refl h
