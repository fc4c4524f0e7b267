-- ===== src/Redemption/Linked.antt =====
-- The transaction and the enrollment stay together: a commit rests on a confirmed enrollment, and a
-- failed enrollment cancels what was allocated in GEAG.
use edx_enterprise_subsidy.Common.{
  ℕ, String, ◌≡◌, refl, arith, Option, none, some, List, [], ◌∷◌, find, opt_eq,
}
use edx_enterprise_subsidy.Schema.Ledger.{
  Transaction, TransactionState, ExternalTransactionReference,
}
use edx_enterprise_subsidy.Schema.Remote.{Request, EnrollmentResponse}
use edx_enterprise_subsidy.Schema.Subsidy.{Subsidy}
use edx_enterprise_subsidy.Service.{
  Env, World, Result, ok, err, Exception, proceed, rescue, catch, lift, ◌>>=◌,
}
use edx_enterprise_subsidy.ApiClient.{
  enroll, enrollment_info, reference_id, or_raise, subsidy_of, bulk_enroll_enterprise_learners,
}
use edx_enterprise_subsidy.Fulfillment.{fulfill, cancel_external, save_fulfillment_reference}
use edx_enterprise_subsidy.Redemption.{
  rollback_transaction, rollback_and_raise, commit_transaction, with_identifier, fulfill_externally,
  enroll_and_commit, attempt_redemption,
}

module _ (env : Env) (user : ℕ) (key : String) (t : Transaction) where
  -- The last request of `w` enrolled the learner for transaction `t`, and its answer confirms
  -- exactly one enrollment, with the reference `id`.
  pub record Confirmed (id : Option String) (w : World) : Type 0 where
    pub customer : ℕ
    pub sent : List Request
    pub response : EnrollmentResponse
    pub last_request :
        w.requests ≡ Request.bulk_enroll customer (enrollment_info user key t ∷ []) ∷ sent
    pub answered : env.bulk_enroll w ≡ ok response
    pub confirms : reference_id response ≡ ok id

  confirm :
      (r : Result EnrollmentResponse) (w : World) (customer : ℕ) (sent : List Request)
      (id : Option String)
      → w.requests ≡ Request.bulk_enroll customer (enrollment_info user key t ∷ []) ∷ sent
      → env.bulk_enroll w ≡ r
      → (proceed r (λ response v. (reference_id response, v)) w).0 ≡ ok id
      → Confirmed id (proceed r (λ response v. (reference_id response, v)) w).1
  confirm (ok response) w customer sent id last_request answered h = record {
    customer = customer;
    sent = sent;
    response = response;
    last_request = last_request;
    answered = answered;
    confirms = h;
  }
  confirm (err e) w customer sent id last_request answered h = cc

  enroll_for :
      (found : Option Subsidy) (w : World) (id : Option String)
      → let (r, w') = or_raise found w in
        let enrolled =
          proceed r
            (λ subsidy.
              bulk_enroll_enterprise_learners env subsidy.enterprise_customer_uuid
                (enrollment_info user key t ∷ [])
              >>= λ response. lift (reference_id response))
            w' in
        enrolled.0 ≡ ok id → Confirmed id enrolled.1
  unfolding bulk_enroll_enterprise_learners
  enroll_for none w id h = cc
  enroll_for (some subsidy) w id h =
      confirm _ _ subsidy.enterprise_customer_uuid w.requests id refl refl h

  enroll-Confirmed :
      (w : World) (id : Option String)
      → (enroll env user key t w).0 ≡ ok id
      → Confirmed id (enroll env user key t w).1
  unfolding enroll subsidy_of
  enroll-Confirmed w id h =
      enroll_for (find (λ s. opt_eq s.ledger t.ledger_uuid) w.subsidies) w id h

  -- `s` is transaction `t` committed on the confirmation that was received at some state `v`, after
  -- which no other request was sent.
  pub record IsCommitted (s : Transaction) (w : World) : Type 0 where
    pub id : Option String
    pub v : World
    pub confirmed : Confirmed id v
    pub no_request_since : w.requests ≡ v.requests
    pub result : s ≡ record (with_identifier id t) { state = TransactionState.committed }

  after_enroll-IsCommitted :
      (reference : Option ExternalTransactionReference) (r : Result (Option String)) (w : World)
      (s : Transaction)
      → ((id : Option String) → r ≡ ok id → Confirmed id w)
      → let (r', w') = proceed r (commit_transaction t) w in
        let done = rescue r' (rollback_and_raise env t reference) w' in
        done.0 ≡ ok s → IsCommitted s done.1
  unfolding commit_transaction rollback_transaction
  after_enroll-IsCommitted reference (ok id) w s confirmed h = record {
    id = id;
    v = w;
    confirmed = confirmed id refl;
    no_request_since = refl;
    result = cc;
  }
  after_enroll-IsCommitted reference (err e) w s confirmed h = cc

  -- An attempt that returns a transaction returns the pending one, committed with the reference of
  -- an enrollment that the enterprise service has confirmed in answer to the last request sent.
  pub attempt_redemption-IsCommitted :
      (w : World) (s : Transaction)
      → (attempt_redemption env user key t w).0 ≡ ok s
      → IsCommitted s (attempt_redemption env user key t w).1
  unfolding attempt_redemption enroll_and_commit rollback_transaction
  attempt_redemption-IsCommitted w s h =
      fulfilled (fulfill_externally env t w).0 (fulfill_externally env t w).1 h
    where
      fulfilled :
          (r : Result (Option ExternalTransactionReference)) (v : World)
          → let (r', w') = rescue r (rollback_and_raise env t none) v in
            let done =
              proceed r'
                (λ reference.
                  catch (enroll_and_commit env user key t) (rollback_and_raise env t reference))
                w' in
            done.0 ≡ ok s → IsCommitted s done.1
      fulfilled (ok reference) v h =
          after_enroll-IsCommitted reference (enroll env user key t v).0 (enroll env user key t v).1
            s (λ id e. enroll-Confirmed v id e) h
      fulfilled (err e) v h = cc

  fulfill-own :
      (w : World) (reference : ExternalTransactionReference)
      → (fulfill_externally env t w).0 ≡ ok (some reference)
      → reference.transaction_uuid ≡ t.uuid
  unfolding fulfill_externally fulfill save_fulfillment_reference
  fulfill-own w reference h = ground arith

  -- If GEAG has fulfilled the transaction and the attempt still fails, the last request cancels
  -- that very fulfillment.
  pub attempt_redemption_cancels :
      (w : World) (reference : ExternalTransactionReference) (e : Exception)
      → (fulfill_externally env t w).0 ≡ ok (some reference)
      → (attempt_redemption env user key t w).0 ≡ err e
      → (sent : List Request) × ((attempt_redemption env user key t w).1.requests
          ≡ Request.cancel_allocation reference.external_reference_id ∷ sent)
  unfolding attempt_redemption enroll_and_commit rollback_transaction commit_transaction
      cancel_external
  attempt_redemption_cancels w reference e fulfilled h = (
    (enroll env user key t (fulfill_externally env t w).1).1.requests,
    ground (arith, fulfill-own w reference fulfilled),
  )
