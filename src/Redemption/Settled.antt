-- ===== src/Redemption/Settled.antt =====
-- An attempted redemption settles its transaction: committed with the enrollment, or failed.
use edx_enterprise_subsidy.Common.{
  ℕ, String, refl, List, ◌≡◌, ◌≢◌, ap, ◌∙◌, arith, Option, none, some, find_row, ◌∷◌,
  find_row-save_row_self, find_row-save_row_ne,
}
use edx_enterprise_subsidy.Schema.Ledger.{
  NewTransaction, Transaction, TransactionState, ExternalTransactionReference,
}
use edx_enterprise_subsidy.Schema.Remote.{Event}
use edx_enterprise_subsidy.Service.{
  Env, World, Result, ok, err, Exec, Exception, catch, proceed, rescue,
}
use edx_enterprise_subsidy.Service.Quiet.{Quiet, quiet_rules}
use edx_enterprise_subsidy.Service.KeepsLedger.{
  SameLedger, KeepsLedger, KeepsLedger-bind, KeepsLedger-if, Quiet-KeepsLedger,
}
use edx_enterprise_subsidy.ApiClient.Quiet.{enroll-Quiet}
use edx_enterprise_subsidy.ApiClient.{enroll}
use edx_enterprise_subsidy.Fulfillment.Quiet.{
  can_fulfill-Quiet, fulfill-KeepsLedger, cancel_external-Quiet,
}
use edx_enterprise_subsidy.Redemption.{
  rollback_transaction, commit_transaction, fulfill_externally, enroll_and_commit,
  attempt_redemption, serialize_transaction, cancel_if_own, rollback_and_raise, with_identifier,
  save, create_redemption, create_transaction, store_created, with_key,
}

abbrev pub row : ℕ → World → Option Transaction
row u w = find_row (λ (t : Transaction). t.uuid) u w.transactions

-- How an action that works on transaction `u`, begun at `w`, has left it.
abbrev pub Settled : ℕ → World → Result Transaction × World → Type 0
Settled u w (ok t, w') =
    (row u w' ≡ some t)
    × (t.uuid ≡ u)
    × (t.state ≡ TransactionState.committed)
    × (w'.events ≡ Event.transaction_committed (serialize_transaction t w'.reversals) ∷ w.events)
    × (w'.reversals ≡ w.reversals)
    × ((v : ℕ) → v ≢ u → row v w' ≡ row v w)
Settled u w (err e, w') =
    (t : Transaction) × (row u w' ≡ some t)
    × (t.uuid ≡ u)
    × (t.state ≡ TransactionState.failed)
    × (w'.events ≡ Event.transaction_failed (serialize_transaction t w'.reversals) ∷ w.events)
    × (w'.reversals ≡ w.reversals)
    × ((v : ℕ) → v ≢ u → row v w' ≡ row v w)

module _ (env : Env) where
  fulfill_externally-KeepsLedger : (t : Transaction) → KeepsLedger (fulfill_externally env t)
  unfolding fulfill_externally
  fulfill_externally-KeepsLedger t = search (
    quiet_rules, KeepsLedger-bind, KeepsLedger-if, Quiet-KeepsLedger, can_fulfill-Quiet,
    fulfill-KeepsLedger,
  )

  cancel-Quiet :
      (t : Transaction) (reference : Option ExternalTransactionReference)
      → Quiet (cancel_if_own env t reference)
  cancel-Quiet t none = search quiet_rules
  cancel-Quiet t (some reference) = search (quiet_rules, cancel_external-Quiet)

  rollback-Settled :
      (t : Transaction) (reference : Option ExternalTransactionReference) (e : Exception)
      (w : World)
      → Settled t.uuid w (rollback_and_raise env {A = Transaction} t reference e w)
  unfolding rollback_transaction
  rollback-Settled t reference e w =
      let q = (cancel-Quiet t reference).at w in
      let failed = record t { state = TransactionState.failed } in
      let rows = (cancel_if_own env t reference w).1.transactions in
      (
        failed,
        find_row-save_row_self (λ r. r.uuid) failed rows,
        refl,
        refl,
        ground arith,
        ground arith,
        λ v ne.
            find_row-save_row_ne (λ r. r.uuid) v failed rows ne
            ∙ ap (find_row (λ (r : Transaction). r.uuid) v) q.transactions,
      )

  commit-Settled :
      (t : Transaction) (id : Option String) (w : World)
      → Settled t.uuid w (commit_transaction t id w)
  unfolding commit_transaction
  commit-Settled t id w =
      let done = record (with_identifier id t) { state = TransactionState.committed } in
      (
        find_row-save_row_self (λ r. r.uuid) done w.transactions,
        refl,
        refl,
        refl,
        refl,
        λ v ne. find_row-save_row_ne (λ r. r.uuid) v done w.transactions ne,
      )

  Settled-after :
      (u : ℕ) (w v : World) (r : Result Transaction × World)
      → SameLedger w v
      → Settled u v r
      → Settled u w r
  Settled-after u w v (ok t, w') q (a, b, c, d, e, f) = (
    a,
    b,
    c,
    rw (← q.events) d,
    e ∙ q.reversals,
    λ x ne. f x ne ∙ ap (find_row (λ (r : Transaction). r.uuid) x) q.transactions,
  )
  Settled-after u w v (err x, w') q (t, a, b, c, d, e, f) = (
    t,
    a,
    b,
    c,
    rw (← q.events) d,
    e ∙ q.reversals,
    λ x ne. f x ne ∙ ap (find_row (λ (r : Transaction). r.uuid) x) q.transactions,
  )

  -- the rest of the second `try`, once the enrollment has been answered
  abbrev after_enroll :
      Transaction → Option ExternalTransactionReference → Result (Option String) → Exec Transaction
  after_enroll t reference r w =
      let (r', w') = proceed r (commit_transaction t) w in
      rescue r' (rollback_and_raise env t reference) w'

  after_enroll-Settled :
      (t : Transaction) (reference : Option ExternalTransactionReference)
      (r : Result (Option String)) (w : World)
      → Settled t.uuid w (after_enroll t reference r w)
  unfolding commit_transaction
  after_enroll-Settled t reference (ok id) w = commit-Settled t id w
  after_enroll-Settled t reference (err e) w = rollback-Settled t reference e w

  abbrev second_try :
      ℕ → String → Transaction → Option ExternalTransactionReference → Exec Transaction
  second_try user key t reference =
      catch (enroll_and_commit env user key t) (rollback_and_raise env t reference)

  second_try-Settled :
      (user : ℕ) (key : String) (t : Transaction) (reference : Option ExternalTransactionReference)
      (w : World)
      → Settled t.uuid w (second_try user key t reference w)
  unfolding enroll_and_commit
  second_try-Settled user key t reference w =
      let (r, w') = enroll env user key t w in
      Settled-after t.uuid w w' (after_enroll t reference r w')
        ((Quiet-KeepsLedger _ (enroll-Quiet env user key t)).at w)
        (after_enroll-Settled t reference r w')

  first_try-Settled :
      (user : ℕ) (key : String) (t : Transaction) (r : Result (Option ExternalTransactionReference))
      (w : World)
      → let (r', w') = rescue r (rollback_and_raise env t none) w in
        Settled t.uuid w (proceed r' (second_try user key t) w')
  unfolding rollback_transaction enroll_and_commit
  first_try-Settled user key t (ok reference) w = second_try-Settled user key t reference w
  first_try-Settled user key t (err e) w = rollback-Settled t none e w

  -- Whatever the other services answer, an attempt ends with the row of its transaction committed,
  -- one committed event, and the transaction returned; or with the row failed, one failed event and
  -- an exception. No reversal and no other row is written.
  pub attempt_redemption-Settled :
      (user : ℕ) (key : String) (t : Transaction) (w : World)
      → Settled t.uuid w (attempt_redemption env user key t w)
  unfolding attempt_redemption
  attempt_redemption-Settled user key t w =
      let (r, w') = fulfill_externally env t w in
      let (r', w'') = rescue r (rollback_and_raise env t none) w' in
      Settled-after t.uuid w w' (proceed r' (second_try user key t) w'')
        ((fulfill_externally-KeepsLedger t).at w) (first_try-Settled user key t r w')

  -- a save of the row itself, before
  Settled-after_save :
      (t : Transaction) (w : World) (r : Result Transaction × World)
      → Settled t.uuid (save t w).1 r
      → Settled t.uuid w r
  Settled-after_save t w (ok s, w') (a, b, c, d, e, f) =
      (a, b, c, d, e, λ x ne. f x ne ∙ find_row-save_row_ne (λ r. r.uuid) x t w.transactions ne)
  Settled-after_save t w (err x, w') (s, a, b, c, d, e, f) =
      (s, a, b, c, d, e, λ x ne. f x ne ∙ find_row-save_row_ne (λ r. r.uuid) x t w.transactions ne)

  -- If the ledger creates (or gets) a transaction for a redemption, that transaction is settled at
  -- the end: from the table that the ledger has written and the created event on, its row ends
  -- committed with one more committed event, or failed with one more failed event and an exception;
  -- no other row and no reversal changes.
  pub create_redemption_settles :
      (user : ℕ) (key : String) (new : NewTransaction) (idempotency_key : Option String)
      (t : Transaction) (rows : List Transaction) (w : World)
      → env.create_transaction (with_key env new idempotency_key w) w ≡ ok (t, rows)
      → Settled t.uuid
          (record w {
            transactions = rows;
            events = Event.transaction_created (serialize_transaction t w.reversals) ∷ w.events;
          })
          (create_redemption env user key new idempotency_key w)
  unfolding create_redemption create_transaction
  create_redemption_settles user key new idempotency_key t rows w h =
      rw (h, store_created)
        (Settled-after_save (record t { state = TransactionState.pending })
          (record w {
            transactions = rows;
            events = Event.transaction_created (serialize_transaction t w.reversals) ∷ w.events;
          })
          _ (attempt_redemption-Settled user key (record t { state = TransactionState.pending }) _))

  -- If the ledger refuses to create the transaction (a lock, a balance), the refusal is raised and
  -- nothing has changed.
  pub create_redemption_refused :
      (user : ℕ) (key : String) (new : NewTransaction) (idempotency_key : Option String)
      (e : Exception) (w : World)
      → env.create_transaction (with_key env new idempotency_key w) w ≡ err e
      → create_redemption env user key new idempotency_key w ≡ (err e, w)
  unfolding create_redemption create_transaction
  create_redemption_refused user key new idempotency_key e w h = rw (h, store_created)
