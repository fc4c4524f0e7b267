-- ===== src/Unenrollment/Cancellation.antt =====
-- Which external fulfillments a cancellation cancels.
use edx_enterprise_subsidy.Common.{
  ◌≡◌, Bool, true, false, ◌||◌, List, [], ◌∷◌, any, arith, if◌then◌else◌, Bool-cases, inl, inr,
}
use edx_enterprise_subsidy.Schema.Ledger.{
  Transaction, TransactionState, ExternalTransactionReference, is_committed,
}
use edx_enterprise_subsidy.Schema.Remote.{Request}
use edx_enterprise_subsidy.Service.{Env, World, ok, err, Exception}
use edx_enterprise_subsidy.Service.Quiet.{Quiet, Quiet-bind, quiet_rules}
use edx_enterprise_subsidy.Fulfillment.{cancel_external}
use edx_enterprise_subsidy.Fulfillment.Quiet.{cancel_external-Quiet}
use edx_enterprise_subsidy.Unenrollment.{
  references_of, is_geag, cancel_references, cancel_all, cancel_transaction_external_fulfillment,
}

-- the requests sent so far, and one cancellation for each GEAG reference, in order
abbrev with_cancellations : List ExternalTransactionReference → List Request → List Request
with_cancellations [] sent = sent
with_cancellations (reference ∷ rest) sent = with_cancellations rest (
    if is_geag reference
    then Request.cancel_allocation reference.external_reference_id ∷ sent
    else sent)

abbrev is_empty {ℓ} : {A : Type ℓ} → List A → Bool
is_empty [] = true
is_empty (_ ∷ _) = false

module _ (env : Env) where
  cancel_references-Quiet :
      (flag : Bool) (references : List ExternalTransactionReference)
      → Quiet (cancel_references env flag references)
  unfolding cancel_references
  cancel_references-Quiet flag [] = search quiet_rules
  cancel_references-Quiet flag (reference ∷ rest) = elim (Bool-cases (is_geag reference)) [
    | inl geag ↦
        rw (geag, cancel_references)
          (Quiet-bind (cancel_external env reference) (λ _. cancel_references env true rest)
            (cancel_external-Quiet env reference) (λ _. cancel_references-Quiet true rest))
    | inr other ↦ rw (other, cancel_references) (cancel_references-Quiet flag rest)
  ]

  cancel_all-Quiet :
      (references : List ExternalTransactionReference) → Quiet (cancel_all env references)
  cancel_all-Quiet [] = search quiet_rules
  cancel_all-Quiet (reference ∷ rest) = cancel_references-Quiet false (reference ∷ rest)

  pub cancel_transaction_external_fulfillment-Quiet :
      (t : Transaction) → Quiet (cancel_transaction_external_fulfillment env t)
  unfolding cancel_transaction_external_fulfillment
  cancel_transaction_external_fulfillment-Quiet t = search (quiet_rules, cancel_all-Quiet)

  cancel_references-ok :
      (flag : Bool) (references : List ExternalTransactionReference) (w w' : World) (b : Bool)
      → cancel_references env flag references w ≡ (ok b, w')
      → (w'.requests ≡ with_cancellations references w.requests)
        × (b ≡ (flag || any is_geag references))
  unfolding cancel_references cancel_external
  cancel_references-ok flag [] w w' b h = ground arith
  cancel_references-ok flag (reference ∷ rest) w w' b h = ground (
    arith,
    cancel_references-ok true rest
        (record w {
          requests = Request.cancel_allocation reference.external_reference_id ∷ w.requests;
        })
        w' b,
    cancel_references-ok flag rest w w' b,
  )

  cancel_all-ok :
      (references : List ExternalTransactionReference) (w w' : World) (b : Bool)
      → cancel_all env references w ≡ (ok b, w')
      → (w'.requests ≡ with_cancellations references w.requests)
        × (b ≡ (is_empty references || any is_geag references))
  cancel_all-ok [] w w' b h = ground arith
  cancel_all-ok (reference ∷ rest) w w' b h = cancel_references-ok false (reference ∷ rest) w w' b h

  -- A cancellation that returns was asked for a committed transaction; it has sent one cancellation
  -- for each of its GEAG references, in order, and none for another provider's; and it returns true
  -- exactly if there was no reference at all or one of GEAG.
  pub cancel_transaction_external_fulfillment-ok :
      (t : Transaction) (w w' : World) (b : Bool)
      → cancel_transaction_external_fulfillment env t w ≡ (ok b, w')
      → (t.state ≡ TransactionState.committed)
        × (w'.requests ≡ with_cancellations (references_of t w) w.requests)
        × (b ≡ (is_empty (references_of t w) || any is_geag (references_of t w)))
  unfolding cancel_transaction_external_fulfillment
  cancel_transaction_external_fulfillment-ok t w w' b h =
      ground (arith, cancel_all-ok (references_of t w) w w' b)

  -- On a transaction that is not committed the cancellation raises and sends nothing.
  cancel_transaction_external_fulfillment_uncommitted :
      (t : Transaction) (w : World)
      → is_committed t.state ≡ false
      → cancel_transaction_external_fulfillment env t w ≡ (err Exception.fulfillment_cancelation, w)
  unfolding cancel_transaction_external_fulfillment
  cancel_transaction_external_fulfillment_uncommitted t w h = rw h
