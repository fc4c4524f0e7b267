-- ===== src/Redemption/Idempotence.antt =====
-- `redeem` is a get-or-create.
use mathlib.Core.Path.{ap₂}
use text.Mathlib.TextPositions.{eq_refl}
use edx_enterprise_subsidy.Common.{
  ℕ, String, refl, sym, ap, ◌∙◌, ◌≡◌, true, false, not, ◌&&◌, arith, Bool, Option, some, find, any,
  find-filter, find-total, find_row-eq-find, opt_eq, opt_str_eq, ◌==◌, Option-cases, inl, inr,
}
use mathlib.Core.Path.{subst}
use edx_enterprise_subsidy.Batches.Sorted.{IsDistinct}
use edx_enterprise_subsidy.Common.Int.{ℤ}
use edx_enterprise_subsidy.Schema.Ledger.{
  Transaction, TransactionState, Metadata, Reversal, is_committed,
}
use edx_enterprise_subsidy.Schema.Subsidy.{Subsidy}
use edx_enterprise_subsidy.Service.{Env, World, ok}
use edx_enterprise_subsidy.Subsidy.{
  all_transactions, transactions_for_learner_and_content, get_committed_transaction_no_reversal,
  is_reversed,
}
use edx_enterprise_subsidy.Redemption.{new_redemption, with_key, redeem}
use edx_enterprise_subsidy.Redemption.Inversion.{Created, redeem-Created}
use edx_enterprise_subsidy.Redemption.Success.{Success, create_redemption-Success}
use edx_enterprise_subsidy.Redemption.Settled.{row}
use edx_enterprise_subsidy.Redemption.Keys.{GetsOrCreates, KeysOf, Made-or_Got}

module _ (self : Subsidy) (user : ℕ) (key : String) where
  -- what `get_committed_transaction_no_reversal` looks for
  abbrev pub redeems : World → Transaction → Bool
  redeems w t =
      opt_eq self.ledger t.ledger_uuid
      && ((opt_eq t.lms_user_id user && opt_str_eq t.content_key key)
          && (is_committed t.state && not (is_reversed w.reversals t)))

  pub get_committed-eq-find :
      (w : World)
      → get_committed_transaction_no_reversal self user key w ≡ find (redeems w) w.transactions
  unfolding get_committed_transaction_no_reversal transactions_for_learner_and_content
      all_transactions
  get_committed-eq-find w = rw (find-filter, find-filter) refl

  pub redeems_of_fields :
      (w : World) (s : Transaction) (ledger : ℕ)
      → self.ledger ≡ some ledger
      → s.ledger_uuid ≡ ledger
      → s.lms_user_id ≡ some user
      → s.content_key ≡ some key
      → s.state ≡ TransactionState.committed
      → is_reversed w.reversals s ≡ false
      → redeems w s ≡ true
  redeems_of_fields w s ledger on_ledger same_ledger for_user for_key committed fresh =
      rw (on_ledger, same_ledger, for_user, for_key, committed, fresh) (ground (arith, eq_refl key))

  pub found_of_row :
      (u : ℕ) (t : Transaction) (w : World)
      → row u w ≡ some t
      → redeems w t ≡ true
      → (x : Transaction) × (get_committed_transaction_no_reversal self user key w ≡ some x)
  found_of_row u t w r h =
      let at_u : find (λ (x : Transaction). x.uuid == u) w.transactions ≡ some t =
        sym (find_row-eq-find (λ x. x.uuid) u w.transactions) ∙ r in
      elim (Option-cases (find (redeems w) w.transactions)) [
        | inl missing ↦
            absurd
              (ground (arith, find-total (redeems w) (λ x. x.uuid == u) w.transactions t at_u h))
        | inr (x, e) ↦ (x, get_committed-eq-find w ∙ e)
      ]

module _ (env : Env) (self : Subsidy) (user : ℕ) (key : String) (policy : ℕ)
    (idempotency_key : Option String) (requested : Option ℤ) (metadata : Option Metadata) where
  pub redeem_of_found :
      (w : World) (x : Transaction)
      → get_committed_transaction_no_reversal self user key w ≡ some x
      → redeem env self user key policy idempotency_key requested metadata w
        ≡ (ok (some x, false), w)
  unfolding redeem
  redeem_of_found w x h = rw (h, redeem)

  redeems_of_Success :
      (promise : GetsOrCreates env) (w w' : World) (s : Transaction)
      (distinct : IsDistinct (λ (x : Transaction). x.uuid) w.transactions)
      (keys : KeysOf env self user key idempotency_key w)
      (c : Created env self user key policy idempotency_key requested metadata w w' s)
      (d : Success env user key
        (new_redemption env self c.ledger user key c.price policy c.email c.summary metadata)
        idempotency_key
        c.v
        w'
        s)
      → redeems self user key w' s ≡ true
  unfolding new_redemption
  redeems_of_Success promise w w' s distinct keys c d =
      let new =
        new_redemption env self c.ledger user key c.price policy c.email c.summary metadata in
      let n = with_key env new idempotency_key c.v in
      let ((same_ledger, same_user, same_key), unreversed) =
        Made-or_Got n c.v d.t d.rows (keys c.v new c.same_tables c.on_ledger refl refl) (
          promise.answers n c.v d.t d.rows
            (subst (IsDistinct (λ (x : Transaction). x.uuid)) (sym c.same_tables.transactions)
              distinct)
            d.created) in
      redeems_of_fields self user key w' s c.ledger c.on_ledger
        (ap (λ x. x.ledger_uuid) d.result ∙ same_ledger)
        (ap (λ x. x.lms_user_id) d.result ∙ same_user) (ap (λ x. x.content_key) d.result ∙ same_key)
        (ap (λ x. x.state) d.result)
        (ap₂ (λ rs u. any (λ (r : Reversal). r.transaction_uuid == u) rs) d.reversals
            (ap (λ x. x.uuid) d.result)
          ∙ unreversed)

  found_after_redeem :
      GetsOrCreates env
      → (w w' : World) (s : Transaction) → IsDistinct (λ (x : Transaction). x.uuid) w.transactions
      → KeysOf env self user key idempotency_key w
      → redeem env self user key policy idempotency_key requested metadata w
        ≡ (ok (some s, true), w')
      → (x : Transaction) × (get_committed_transaction_no_reversal self user key w' ≡ some x)
  found_after_redeem promise w w' s distinct keys h =
      let c = redeem-Created env self user key policy idempotency_key requested metadata w w' s h in
      let d =
        create_redemption-Success env user key
          (new_redemption env self c.ledger user key c.price policy c.email c.summary metadata)
          idempotency_key c.v w' s c.redeemed in
      found_of_row self user key s.uuid s w' d.stored
        (redeems_of_Success promise w w' s distinct keys c d)

-- Redeeming is idempotent: after a redemption that created a transaction, any further redemption of
-- the same content by the same learner, whatever its policy, key, price and metadata, returns a
-- transaction as not created and changes nothing, sends no request and emits no event. For a ledger
-- that creates a transaction or gets the one with the same ledger and key, a first key that no
-- reversed transaction of this ledger and no transaction for another learner or content has, and a
-- table of transactions without duplicate uuids.
pub redeem_twice :
    (env : Env) (self : Subsidy) (user : ℕ) (key : String) (policy policy' : ℕ)
    (idempotency_key idempotency_key' : Option String) (requested requested' : Option ℤ)
    (metadata metadata' : Option Metadata) (w w' : World) (s : Transaction)
    → GetsOrCreates env
    → IsDistinct (λ (x : Transaction). x.uuid) w.transactions
    → KeysOf env self user key idempotency_key w
    → redeem env self user key policy idempotency_key requested metadata w ≡ (ok (some s, true), w')
    → (x : Transaction) × (redeem env self user key policy' idempotency_key' requested' metadata' w'
        ≡ (ok (some x, false), w'))
redeem_twice env self user key policy policy' idempotency_key idempotency_key' requested requested'
      metadata metadata' w w' s promise distinct keys h =
    let (x, e) =
      found_after_redeem env self user key policy idempotency_key requested metadata promise w w' s
        distinct keys h in
    (x, redeem_of_found env self user key policy' idempotency_key' requested' metadata' w' x e)
