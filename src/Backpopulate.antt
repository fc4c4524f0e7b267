-- ===== src/Backpopulate.antt =====
-- apps/transaction/management/commands: backpopulate_transaction_email_and_title and
-- backpopulate_transaction_parent_content_key. The two `handle`s differ in their filter and in what
-- they do with a transaction. The arguments of the command line are values here.
pub mod Key
pub mod Fills
pub mod Process
mod Queries
pub mod Commands
pub mod ParentKey
unfoldable pub use Key.{partition_colon}
use edx_enterprise_subsidy.Common.{
  ℕ, String, Bool, true, false, not, ◌&&◌, ◌||◌, Option, none, some, List, if◌then◌else◌, filter,
  is_some, opt_eq, str_eq,
}
use edx_enterprise_subsidy.Schema.Ledger.{Transaction}
use edx_enterprise_subsidy.Schema.Subsidy.{Subsidy}
use edx_enterprise_subsidy.Schema.Catalog.{ContentData}
use edx_enterprise_subsidy.Service.{
  Env, World, Result, ok, err, Exec, Exception, pure, lift, gets, proceed, rescue, catch, ◌>>=◌,
  ◌>>◌,
}
use edx_enterprise_subsidy.ContentMetadata.{get_content_metadata}
use edx_enterprise_subsidy.Subsidy.{active_subsidies, email_for_learner, title_for_content}
use edx_enterprise_subsidy.Redemption.{save}
use edx_enterprise_subsidy.Unenrollment.{content_or_raise}
use edx_enterprise_subsidy.Batches.{for_batches, default_batch_size}

-- `None` has no `partition`; a missing key is the empty text
abbrev pub aggregation_text : Option (Option String) → Result String
aggregation_text none = ok ""
aggregation_text (some none) = err Exception.attribute_error
aggregation_text (some (some text)) = ok text

abbrev pub parent_of : String × String → Option String
parent_of (content_type, content_key) =
    if str_eq content_type "courserun" then some content_key else none

abbrev pub parent_of_text : Result String → Result (Option String)
parent_of_text (ok text) = ok (parent_of (partition_colon text))
parent_of_text (err e) = err e

unfoldable pub _get_parent_content_key : ContentData → Result (Option String)
_get_parent_content_key metadata = parent_of_text (aggregation_text metadata.aggregation_key)

abbrev incomplete_email : Transaction → Bool
incomplete_email t = not (is_some t.lms_user_email) && is_some t.lms_user_id

abbrev incomplete_title : Transaction → Bool
incomplete_title t = not (is_some t.content_title) && is_some t.content_key

abbrev pub incomplete_email_or_title : Transaction → Bool
incomplete_email_or_title t = incomplete_email t || incomplete_title t

abbrev pub incomplete_parent_content_key : Transaction → Bool
incomplete_parent_content_key t = not (is_some t.parent_content_key) && is_some t.content_key

-- `if field is None and source is not None`
abbrev pub if_missing :
    {A B : Type 0} → Option A → Option B → Transaction → (B → Exec Transaction) → Exec Transaction
if_missing none (some b) t fill = fill b
if_missing none none t fill = pure t
if_missing (some a) b t fill = pure t

-- `if not self.dry_run: txn.save()`
abbrev pub save_unless : Bool → Transaction → Exec (Unit {0})
save_unless true t = pure tt
save_unless false t = save t

module _ (env : Env) where
  abbrev pub fill_email : Subsidy → Transaction → Exec Transaction
  fill_email subsidy t = if_missing t.lms_user_email t.lms_user_id t λ lms_user_id. do
    lms_user_email ← email_for_learner env subsidy lms_user_id
    pure (record t { lms_user_email = lms_user_email })

  abbrev pub fill_title : Subsidy → Transaction → Exec Transaction
  fill_title subsidy t = if_missing t.content_title t.content_key t λ content_key. do
    content_title ← title_for_content env subsidy content_key
    pure (record t { content_title = content_title })

  abbrev pub fill_parent_content_key : Transaction → Exec Transaction
  fill_parent_content_key t = if_missing t.parent_content_key t.content_key t λ content_key. do
    found ← get_content_metadata env content_key
    content_metadata ← lift (content_or_raise found)
    parent_content_key ← lift (_get_parent_content_key content_metadata)
    pure (record t { parent_content_key = parent_content_key })

  -- `process_transaction` of either command; an exception leaves the field as it is
  unfoldable pub process_email_and_title : Bool → Subsidy → Transaction → Exec (Unit {0})
  process_email_and_title dry_run subsidy t = do
    with_email ← catch (fill_email subsidy t) (λ e. pure t)
    with_title ← catch (fill_title subsidy with_email) (λ e. pure with_email)
    save_unless dry_run with_title

  unfoldable pub process_parent_content_key : Bool → Subsidy → Transaction → Exec (Unit {0})
  unfolding _get_parent_content_key
  process_parent_content_key dry_run subsidy t = do
    filled ← catch (fill_parent_content_key t) (λ e. pure t)
    save_unless dry_run filled

-- `Q(ledger=subsidy.ledger) & incomplete`
abbrev pub txn_filter : (Transaction → Bool) → Subsidy → Transaction → Bool
txn_filter incomplete subsidy t = opt_eq subsidy.ledger t.ledger_uuid && incomplete t

module _ (incomplete : Transaction → Bool) (process : Subsidy → Transaction → Exec (Unit {0})) where
  -- the loop over the batches of one subsidy
  unfoldable pub process_subsidy : Subsidy → Exec (Unit {0})
  process_subsidy subsidy =
      for_batches (λ (t : Transaction). t.uuid) (λ w. w.transactions)
        (txn_filter incomplete subsidy) default_batch_size (process subsidy)

  unfoldable pub handle_subsidies : Bool → Exec (Unit {0})
  unfolding process_subsidy
  handle_subsidies include_internal_subsidies =
      for_batches (λ (s : Subsidy). s.uuid) active_subsidies
        (λ s. include_internal_subsidies || not s.internal_only) default_batch_size process_subsidy

unfoldable pub backpopulate_transaction_email_and_title : Env → Bool → Bool → Exec (Unit {0})
unfolding handle_subsidies process_email_and_title
backpopulate_transaction_email_and_title env dry_run include_internal_subsidies =
    handle_subsidies incomplete_email_or_title (process_email_and_title env dry_run)
      include_internal_subsidies

unfoldable pub backpopulate_transaction_parent_content_key : Env → Bool → Bool → Exec (Unit {0})
unfolding handle_subsidies process_parent_content_key
backpopulate_transaction_parent_content_key env dry_run include_internal_subsidies =
    handle_subsidies incomplete_parent_content_key (process_parent_content_key env dry_run)
      include_internal_subsidies
