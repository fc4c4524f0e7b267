-- ===== src/Redemption.antt =====
-- `Subsidy.create_transaction`, `commit_transaction`, `rollback_transaction`, `_create_redemption`
-- and `redeem` in apps/subsidy/models.py, and the events of apps/core/event_bus.py. Saving a row and
-- sending an event are taken not to raise.
mod Events
pub use Events.*
pub mod Settled
pub mod Linked
pub mod Success
pub mod Inversion
pub mod Keys
pub mod Idempotence
pub mod Charge
pub mod Standing
pub mod Machine
pub mod Steps
use edx_enterprise_subsidy.Common.{
  ℕ, String, Bool, true, false, ◌&&◌, Option, none, some, List, [], ◌∷◌, ◌==◌, if◌then◌else◌,
  truthy_text, save_row, str_eq,
}
use edx_enterprise_subsidy.Common.Int.{ℤ, pos, neg}
use edx_enterprise_subsidy.Schema.Ledger.{
  Transaction, NewTransaction, TransactionState, ExternalTransactionReference, Metadata,
}
use edx_enterprise_subsidy.Schema.Subsidy.{Subsidy}
use edx_enterprise_subsidy.Service.{
  Env, World, Result, ok, err, Exec, Exception, pure, raise, gets, lift, proceed, rescue, catch,
  swallow, ◌>>=◌, ◌>>◌, modify,
}
use edx_enterprise_subsidy.ContentMetadata.{SummaryData}
use edx_enterprise_subsidy.ApiClient.{enroll}
use edx_enterprise_subsidy.Fulfillment.{can_fulfill, fulfill, cancel_external}
use edx_enterprise_subsidy.Subsidy.{
  ledger_or_raise, email_for_learner, metadata_summary_for_content, is_redeemable,
  get_committed_transaction_no_reversal,
}

-- `transaction.save()`
abbrev pub save : Transaction → Exec (Unit {0})
save t = modify (λ w. record w { transactions = save_row (λ r. r.uuid) t w.transactions })

-- `if fulfillment_identifier:` it is written, else the old one stays
abbrev pub with_identifier : Option String → Transaction → Transaction
with_identifier id t = record t {
  fulfillment_identifier = if truthy_text id then id else t.fulfillment_identifier;
}

unfoldable pub commit_transaction : Transaction → Option String → Exec Transaction
commit_transaction t fulfillment_identifier =
    let committed = record (with_identifier fulfillment_identifier t) {
      state = TransactionState.committed;
    } in
    do save committed; send_transaction_committed_event committed; pure committed

module _ (env : Env) where
  abbrev pub cancel_if_own : Transaction → Option ExternalTransactionReference → Exec (Unit {0})
  cancel_if_own t none = pure tt
  cancel_if_own t (some reference) =
      if reference.transaction_uuid == t.uuid then cancel_external env reference else pure tt

  unfoldable pub rollback_transaction :
      Transaction → Option ExternalTransactionReference → Exec Transaction
  rollback_transaction t external_transaction_reference =
      let failed = record t { state = TransactionState.failed } in
      do
        swallow (cancel_if_own t external_transaction_reference)
        save failed
        send_transaction_failed_event failed
        pure failed

  -- the writes of `openedx_ledger.api.create_transaction`, whose answer decides what is stored
  abbrev pub store_created : Result (Transaction × List Transaction) → Exec Transaction
  store_created (ok (t, rows)) w = (ok t, record w { transactions = rows })
  store_created (err e) w = (err e, w)

  -- `Subsidy.create_transaction`
  unfoldable pub create_transaction : NewTransaction → Exec Transaction
  create_transaction new = do
    t ← λ w. store_created (env.create_transaction new w) w
    send_transaction_created_event t
    pure t

  -- the first `try` block
  unfoldable pub fulfill_externally : Transaction → Exec (Option ExternalTransactionReference)
  fulfill_externally t = do
    fulfillable ← can_fulfill env t
    if fulfillable then (do reference ← fulfill env t; pure (some reference)) else pure none

  -- the second `try` block
  unfoldable pub enroll_and_commit : ℕ → String → Transaction → Exec Transaction
  enroll_and_commit lms_user_id content_key t = do
    fulfillment_identifier ← enroll env lms_user_id content_key t
    commit_transaction t fulfillment_identifier

  -- `except Exception as exc: rollback; raise exc`
  abbrev pub rollback_and_raise :
      {A : Type 0} → Transaction → Option ExternalTransactionReference → Exception → Exec A
  rollback_and_raise t reference e = do rollback_transaction t reference; raise e

  -- `_create_redemption` from the pending transaction on
  unfoldable pub attempt_redemption : ℕ → String → Transaction → Exec Transaction
  attempt_redemption lms_user_id content_key t = do
    reference ← catch (fulfill_externally t) (rollback_and_raise t none)
    catch (enroll_and_commit lms_user_id content_key t) (rollback_and_raise t reference)

  abbrev key_or_default : Option String → String → String
  key_or_default none default = default
  key_or_default (some key) default = if str_eq key "" then default else key

  -- the key of the new transaction: the caller's, or one that openedx_ledger generates
  abbrev pub with_key : NewTransaction → Option String → World → NewTransaction
  with_key new idempotency_key w = record new {
    idempotency_key = key_or_default idempotency_key (env.create_idempotency_key new w);
  }

  unfoldable pub create_redemption : ℕ → String → NewTransaction → Option String → Exec Transaction
  create_redemption lms_user_id content_key new idempotency_key = do
    keyed ← gets (with_key new idempotency_key)
    t ← create_transaction keyed
    let pending = record t { state = TransactionState.pending }
    save pending
    attempt_redemption lms_user_id content_key pending

module _ (env : Env) (self : Subsidy) where
  abbrev title_of : Option SummaryData → Option String
  title_of none = none
  title_of (some summary) = summary.content_title

  abbrev parent_key_of : Option SummaryData → Option String
  parent_key_of none = none
  parent_key_of (some summary) = summary.content_key

  abbrev or_empty : Option Metadata → Metadata
  or_empty none = []
  or_empty (some metadata) = metadata

  -- the arguments that `redeem` and `_create_redemption` pass on to the ledger
  unfoldable pub new_redemption :
      ℕ → ℕ → String → ℕ → ℕ → Option String → Option SummaryData → Option Metadata → NewTransaction
  new_redemption ledger lms_user_id content_key content_price policy email summary metadata =
      record {
        ledger_uuid = ledger;
        quantity = neg (pos content_price);
        idempotency_key = "";
        lms_user_id = some lms_user_id;
        lms_user_email = email;
        content_key = some content_key;
        parent_content_key = parent_key_of summary;
        content_title = title_of summary;
        subsidy_access_policy_uuid = some policy;
        metadata = or_empty metadata;
      }

  -- the `except` clauses of `redeem`
  abbrev pub on_redemption_error : Exception → Exec (Option Transaction × Bool)
  on_redemption_error Exception.ledger_balance_exceeded = pure (none, false)
  on_redemption_error e = raise e

  -- the `try` block of `redeem`
  unfoldable pub redeem_at_price :
      ℕ → String → ℕ → Option String → Option Metadata → ℕ → Exec (Option Transaction × Bool)
  redeem_at_price lms_user_id content_key policy idempotency_key metadata content_price = do
    lms_user_email ← email_for_learner env self lms_user_id
    summary ← metadata_summary_for_content env self content_key
    ledger ← ledger_or_raise self.ledger
    transaction ←
        create_redemption env lms_user_id content_key
          (new_redemption ledger lms_user_id content_key content_price policy lms_user_email summary
            metadata)
          idempotency_key
    pure (some transaction, true)

  abbrev pub redeem_new :
      ℕ → String → ℕ → Option String → Option ℤ → Option Metadata → Exec (Option Transaction × Bool)
  redeem_new lms_user_id content_key policy idempotency_key requested_price_cents metadata = do
    (redeemable, content_price) ← is_redeemable env self content_key requested_price_cents
    if redeemable
        then catch
            (redeem_at_price lms_user_id content_key policy idempotency_key metadata content_price)
            on_redemption_error
        else pure (none, false)

  unfoldable pub redeem :
      ℕ → String → ℕ → Option String → Option ℤ → Option Metadata → Exec (Option Transaction × Bool)
  redeem lms_user_id content_key policy idempotency_key requested_price_cents metadata w =
      elim (get_committed_transaction_no_reversal self lms_user_id content_key w) [
        | some existing ↦ (ok (some existing, false), w)
        | none ↦
            redeem_new lms_user_id content_key policy idempotency_key requested_price_cents metadata
              w
      ]
