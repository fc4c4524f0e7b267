-- ===== src/Redemption/Events.antt =====
-- apps/core/event_bus.py
use edx_enterprise_subsidy.Common.{Option, none, some, List, ◌∷◌, ◌==◌, find}
use edx_enterprise_subsidy.Schema.Ledger.{Transaction, Reversal}
use edx_enterprise_subsidy.Schema.Remote.{Event, LedgerTransaction, LedgerTransactionReversal}
use edx_enterprise_subsidy.Service.{ok, Exec}

-- `transaction.get_reversal()`
abbrev get_reversal : Transaction → List Reversal → Option Reversal
get_reversal t = find (λ r. r.transaction_uuid == t.uuid)

abbrev serialize_reversal : Option Reversal → Option LedgerTransactionReversal
serialize_reversal none = none
serialize_reversal (some r) = some (record {
  uuid = r.uuid;
  idempotency_key = r.idempotency_key;
  quantity = r.quantity;
  state = r.state;
})

unfoldable pub serialize_transaction : Transaction → List Reversal → LedgerTransaction
serialize_transaction t reversals = record {
  uuid = t.uuid;
  idempotency_key = t.idempotency_key;
  quantity = t.quantity;
  state = t.state;
  ledger_uuid = t.ledger_uuid;
  subsidy_access_policy_uuid = t.subsidy_access_policy_uuid;
  lms_user_id = t.lms_user_id;
  content_key = t.content_key;
  parent_content_key = t.parent_content_key;
  fulfillment_identifier = t.fulfillment_identifier;
  reversal = serialize_reversal (get_reversal t reversals);
}

-- `SIGNAL.send_event(ledger_transaction=serialize_transaction(transaction_record))`
abbrev send : (LedgerTransaction → Event) → Transaction → Exec (Unit {0})
send signal t w =
    (ok tt, record w { events = signal (serialize_transaction t w.reversals) ∷ w.events })

abbrev pub send_transaction_created_event : Transaction → Exec (Unit {0})
send_transaction_created_event = send Event.transaction_created

abbrev pub send_transaction_committed_event : Transaction → Exec (Unit {0})
send_transaction_committed_event = send Event.transaction_committed

abbrev pub send_transaction_failed_event : Transaction → Exec (Unit {0})
send_transaction_failed_event = send Event.transaction_failed

abbrev pub send_transaction_reversed_event : Transaction → Exec (Unit {0})
send_transaction_reversed_event = send Event.transaction_reversed
