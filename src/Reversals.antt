-- ===== src/Reversals.antt =====
-- apps/transaction/management/commands: write_reversals_from_enterprise_unenrollments, whose command
-- object keeps `fetched_content_metadata` from one unenrollment to the next, and
-- replay_reversal_events, without the producer's shutdown.
pub mod Grown
pub mod Written
pub mod Again
pub mod DryRun
use edx_enterprise_subsidy.Common.{
  ℕ, ◌+◌, String, Bool, true, false, not, ◌&&◌, Option, none, some, List, [], ◌∷◌, ◌==◌,
  if◌then◌else◌, str_eq, any, find_row,
}
use edx_enterprise_subsidy.Schema.Ledger.{Transaction, Reversal, is_committed}
use edx_enterprise_subsidy.Schema.Catalog.{ContentData}
use edx_enterprise_subsidy.Schema.Remote.{Unenrollment, EnterpriseCourseEnrollment}
use edx_enterprise_subsidy.Service.{
  Env, World, Result, ok, err, Exec, pure, gets, lift, proceed, ◌>>=◌, ◌>>◌,
}
use edx_enterprise_subsidy.ContentMetadata.{get_content_metadata}
use edx_enterprise_subsidy.ApiClient.{fetch_recent_unenrollments}
use edx_enterprise_subsidy.Redemption.{send_transaction_reversed_event}
use edx_enterprise_subsidy.Unenrollment.{
  reversible, content_or_raise, unenrollment_can_be_refunded,
  cancel_transaction_external_fulfillment, reverse_transaction, if_found,
}

-- `fetched_content_metadata`, the newest entry first
abbrev pub Memo : Type 0
Memo = List (String × Option ContentData)

abbrev memo_find : String → Memo → Option ContentData
memo_find key [] = none
memo_find key ((k, content) ∷ memo) =
    let rest = memo_find key memo in if str_eq k key then content else rest

abbrev truthy_content : Option ContentData → Option ContentData
truthy_content none = none
truthy_content (some content) = if content.is_empty then none else some content

-- the entry of a key, if it is truthy
abbrev pub memo_get : String → Memo → Option ContentData
memo_get key memo = truthy_content (memo_find key memo)

-- the row that an unenrollment names
abbrev pub related_to : Unenrollment → World → Option Transaction
related_to unenrollment w =
    find_row (λ (t : Transaction). t.uuid) unenrollment.transaction_id w.transactions

-- the query of replay_reversal_events
abbrev has_committed_reversal : List Reversal → Transaction → Bool
has_committed_reversal reversals t =
    any (λ r. r.transaction_uuid == t.uuid && is_committed r.state) reversals

abbrev all_reversed_transactions : List Reversal → List Transaction → List Transaction
all_reversed_transactions reversals [] = []
all_reversed_transactions reversals (t ∷ rest) =
    let others = all_reversed_transactions reversals rest in
    if is_committed t.state && has_committed_reversal reversals t then t ∷ others else others

abbrev replay_all : Bool → List Transaction → Exec (Unit {0})
replay_all dry_run [] = pure tt
replay_all true (t ∷ rest) = replay_all true rest
replay_all false (t ∷ rest) = do send_transaction_reversed_event t; replay_all false rest

unfoldable replay_reversal_events : Bool → Exec (Unit {0})
replay_reversal_events dry_run = do
  reversed ← gets (λ w. all_reversed_transactions w.reversals w.transactions)
  replay_all dry_run reversed

module _ (env : Env) where
  -- a truthy entry of the memo, or the catalog's answer, which is entered
  abbrev pub fetched_or : String → Memo → Option ContentData → Exec (ContentData × Memo)
  fetched_or key memo (some content) = pure (content, memo)
  fetched_or key memo none = do
    found ← get_content_metadata env key
    content ← lift (content_or_raise found)
    pure (content, (key, found) ∷ memo)

  abbrev pub memoized_content : String → Memo → Exec (ContentData × Memo)
  memoized_content key memo = fetched_or key memo (memo_get key memo)

  -- the end of `handle_reversing_enterprise_course_unenrollment`, if the refund is due
  abbrev pub write_reversal : Bool → Unenrollment → Transaction → Exec ℕ
  write_reversal true unenrollment t = pure 0
  write_reversal false unenrollment t = do
    successfully_canceled ← cancel_transaction_external_fulfillment env t
    if successfully_canceled
        then (do
          reverse_transaction env t (some unenrollment.enterprise_course_enrollment.unenrolled_at)
          pure 1)
        else pure 0

  -- the same from the memo on
  unfoldable pub reverse_if_refundable : Bool → Unenrollment → Memo → Transaction → Exec (ℕ × Memo)
  reverse_if_refundable dry_run unenrollment memo t = do
    let enrollment = unenrollment.enterprise_course_enrollment
    (content, memo') ← memoized_content enrollment.course_id memo
    refundable ← lift (unenrollment_can_be_refunded env content enrollment)
    written ← if refundable then write_reversal dry_run unenrollment t else pure 0
    pure (written, memo')

  unfoldable pub handle_reversing_enterprise_course_unenrollment :
      Bool → Unenrollment → Memo → Exec (ℕ × Memo)
  unfolding reverse_if_refundable
  handle_reversing_enterprise_course_unenrollment dry_run unenrollment memo = do
    related ← gets (λ w. reversible w (related_to unenrollment w))
    if_found env related (reverse_if_refundable dry_run unenrollment memo) (pure (0, memo))

  -- the loop of `handle`, with `reversals_processed` summed up
  unfoldable pub process_unenrollments : Bool → List Unenrollment → Memo → Exec ℕ
  process_unenrollments dry_run [] memo = pure 0
  process_unenrollments dry_run (unenrollment ∷ rest) memo = do
    (processed, memo') ← handle_reversing_enterprise_course_unenrollment dry_run unenrollment memo
    others ← process_unenrollments dry_run rest memo'
    pure (processed + others)

  unfoldable pub write_reversals_from_enterprise_unenrollments : Bool → Exec ℕ
  write_reversals_from_enterprise_unenrollments dry_run = do
    recent_unenrollments ← fetch_recent_unenrollments env
    process_unenrollments dry_run recent_unenrollments []
