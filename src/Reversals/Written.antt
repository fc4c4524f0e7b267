-- ===== src/Reversals/Written.antt =====
-- What the command write_reversals_from_enterprise_unenrollments has written.
use edx_enterprise_subsidy.Common.{
  ℕ, ◌+◌, ◌≡◌, refl, ◌∙◌, ap, String, Bool, true, false, Option, none, some, List, [], ◌∷◌,
  if◌then◌else◌,
}
use edx_enterprise_subsidy.Schema.Ledger.{Transaction}
use edx_enterprise_subsidy.Schema.Catalog.{ContentData}
use edx_enterprise_subsidy.Schema.Remote.{Unenrollment}
use edx_enterprise_subsidy.Service.{Env, World, ok, pure, lift, ◌>>=◌}
use edx_enterprise_subsidy.Service.Quiet.{Quiet, quiet_rules}
use edx_enterprise_subsidy.Service.Inversion.{bind-ok}
use edx_enterprise_subsidy.ApiClient.{fetch_recent_unenrollments}
use edx_enterprise_subsidy.ContentMetadata.Caching.{get_content_metadata-Quiet}
use edx_enterprise_subsidy.Subsidy.{is_reversed}
use edx_enterprise_subsidy.Unenrollment.{
  reverse_transaction, reversible, if_found, unenrollment_can_be_refunded,
  cancel_transaction_external_fulfillment,
}
use edx_enterprise_subsidy.Unenrollment.Cancellation.{cancel_transaction_external_fulfillment-Quiet}
use edx_enterprise_subsidy.Reversals.{
  Memo, memo_get, memoized_content, fetched_or, write_reversal, reverse_if_refundable,
  handle_reversing_enterprise_course_unenrollment, process_unenrollments,
  write_reversals_from_enterprise_unenrollments, related_to,
}
use edx_enterprise_subsidy.Reversals.Grown.{
  WritesOne, Grown, reverse_transaction-Grown, Grown-same, Grown-trans, Grown-ok, Grown-after,
  Grown-pair, kept, reversible-new,
}

pub memo_step-Quiet :
    (env : Env) (key : String) (memo : Memo) (found : Option ContentData)
    → Quiet (fetched_or env key memo found)
memo_step-Quiet env key memo (some content) = search quiet_rules
memo_step-Quiet env key memo none = search (quiet_rules, get_content_metadata-Quiet)

module _ (env : Env) (contract : WritesOne env) where
  write_if_cancelled :
      (cancelled : Bool) (unenrollment : Unenrollment) (t : Transaction) (w w' : World) (n : ℕ)
      → is_reversed w.reversals t ≡ false
      → (if cancelled
            then (reverse_transaction env t
                  (some unenrollment.enterprise_course_enrollment.unenrolled_at)
                >>= λ _. pure 1)
            else pure 0)
          w
        ≡ (ok n, w')
      → Grown w n w'
  write_if_cancelled false unenrollment t w w' n fresh h =
      Grown-ok w w w' 0 n (Grown-same w w refl) h
  write_if_cancelled true unenrollment t w w' n fresh h =
      let time = some unenrollment.enterprise_course_enrollment.unenrolled_at in
      let (r, v, e, k) = bind-ok (reverse_transaction env t time) (λ _. pure 1) w h in
      Grown-ok w v w' 1 n (reverse_transaction-Grown env contract t time w v r fresh e) k

  write_reversal-Grown :
      (dry_run : Bool) (unenrollment : Unenrollment) (t : Transaction) (w w' : World) (n : ℕ)
      → is_reversed w.reversals t ≡ false
      → write_reversal env dry_run unenrollment t w ≡ (ok n, w')
      → Grown w n w'
  write_reversal-Grown true unenrollment t w w' n fresh h =
      Grown-ok w w w' 0 n (Grown-same w w refl) h
  write_reversal-Grown false unenrollment t w w' n fresh h =
      let (cancelled, v, e, k) = bind-ok (cancel_transaction_external_fulfillment env t) _ w h in
      let q = cancel_transaction_external_fulfillment-Quiet env t in
      Grown-after (cancel_transaction_external_fulfillment env t) w v w' (ok cancelled) n q e (
        write_if_cancelled cancelled unenrollment t v w' n
          (ap (λ rs. is_reversed rs t)
              (kept (cancel_transaction_external_fulfillment env t) w v (ok cancelled) q e)
            ∙ fresh)
          k)

  write_if_refundable :
      (dry_run refundable : Bool) (unenrollment : Unenrollment) (t : Transaction) (w w' : World)
      (n : ℕ)
      → is_reversed w.reversals t ≡ false
      → (if refundable then write_reversal env dry_run unenrollment t else pure 0) w ≡ (ok n, w')
      → Grown w n w'
  write_if_refundable dry_run true unenrollment t w w' n fresh h =
      write_reversal-Grown dry_run unenrollment t w w' n fresh h
  write_if_refundable dry_run false unenrollment t w w' n fresh h =
      Grown-ok w w w' 0 n (Grown-same w w refl) h

  reverse_if_refundable-Grown :
      (dry_run : Bool) (unenrollment : Unenrollment) (memo memo' : Memo) (t : Transaction)
      (w w' : World) (n : ℕ)
      → is_reversed w.reversals t ≡ false
      → reverse_if_refundable env dry_run unenrollment memo t w ≡ (ok (n, memo'), w')
      → Grown w n w'
  unfolding reverse_if_refundable
  reverse_if_refundable-Grown dry_run unenrollment memo memo' t w w' n fresh h =
      let key = unenrollment.enterprise_course_enrollment.course_id in
      let step = memoized_content env key memo in
      let ((content, memo''), v, e, k) = bind-ok step _ w h in
      let q = memo_step-Quiet env key memo (memo_get key memo) in
      let check =
        lift (unenrollment_can_be_refunded env content unenrollment.enterprise_course_enrollment) in
      let (refundable, v', e', k') = bind-ok check _ v k in
      let (written, v'', e'', k'') =
        bind-ok (if refundable then write_reversal env dry_run unenrollment t else pure 0) _ v'
          k' in
      Grown-after step w v w' (ok (content, memo'')) n q e (
        Grown-after check v v' w' (ok refundable) n (search quiet_rules) e' (
          Grown-pair v' v'' w' written n memo'' memo'
            (write_if_refundable dry_run refundable unenrollment t v' v'' written
              (ap (λ rs. is_reversed rs t)
                  (kept check v v' (ok refundable) (search quiet_rules) e'
                    ∙ kept step w v (ok (content, memo'')) q e)
                ∙ fresh)
              e'')
            k''))

  if_found-Grown :
      (dry_run : Bool) (unenrollment : Unenrollment) (memo memo' : Memo) (w w' : World) (n : ℕ)
      (found : Option Transaction)
      → ((t : Transaction) → found ≡ some t → is_reversed w.reversals t ≡ false)
      → if_found env found (reverse_if_refundable env dry_run unenrollment memo) (pure (0, memo)) w
        ≡ (ok (n, memo'), w')
      → Grown w n w'
  if_found-Grown dry_run unenrollment memo memo' w w' n none guard h =
      Grown-pair w w w' 0 n memo memo' (Grown-same w w refl) h
  if_found-Grown dry_run unenrollment memo memo' w w' n (some t) guard h =
      reverse_if_refundable-Grown dry_run unenrollment memo memo' t w w' n (guard t refl) h

  -- one unenrollment
  handle-Grown :
      (dry_run : Bool) (unenrollment : Unenrollment) (memo memo' : Memo) (w w' : World) (n : ℕ)
      → handle_reversing_enterprise_course_unenrollment env dry_run unenrollment memo w
        ≡ (ok (n, memo'), w')
      → Grown w n w'
  unfolding handle_reversing_enterprise_course_unenrollment
  handle-Grown dry_run unenrollment memo memo' w w' n h =
      if_found-Grown dry_run unenrollment memo memo' w w' n
        (reversible w (related_to unenrollment w)) (reversible-new w (related_to unenrollment w)) h

  process-Grown :
      (dry_run : Bool) (unenrollments : List Unenrollment) (memo : Memo) (w w' : World) (n : ℕ)
      → process_unenrollments env dry_run unenrollments memo w ≡ (ok n, w')
      → Grown w n w'
  unfolding process_unenrollments
  process-Grown dry_run [] memo w w' n h = Grown-ok w w w' 0 n (Grown-same w w refl) h
  process-Grown dry_run (unenrollment ∷ rest) memo w w' n h =
      let ((m, memo'), v, e, k) =
        bind-ok (handle_reversing_enterprise_course_unenrollment env dry_run unenrollment memo) _ w
          h in
      let (others, v', e', k') =
        bind-ok (process_unenrollments env dry_run rest memo') (λ others. pure (m + others)) v k in
      Grown-ok w v' w' (m + others) n
        (Grown-trans w v v' m others (handle-Grown dry_run unenrollment memo memo' w v m e)
          (process-Grown dry_run rest memo' v v' others e'))
        k'

  -- When the command returns, the number that it returns is the number of reversals added, and no
  -- transaction has two reversals if none had two before. For a ledger whose
  -- `reverse_full_transaction`, when it returns on a transaction without a reversal, has written one.
  pub write_reversals_counts :
      (dry_run : Bool) (w w' : World) (n : ℕ)
      → write_reversals_from_enterprise_unenrollments env dry_run w ≡ (ok n, w')
      → Grown w n w'
  unfolding write_reversals_from_enterprise_unenrollments fetch_recent_unenrollments
  write_reversals_counts dry_run w w' n h =
      let (unenrollments, v, e, k) = bind-ok (fetch_recent_unenrollments env) _ w h in
      Grown-after (fetch_recent_unenrollments env) w v w' (ok unenrollments) n (search quiet_rules)
        e (process-Grown dry_run unenrollments [] v w' n k)
