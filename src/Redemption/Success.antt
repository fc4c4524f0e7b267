-- ===== src/Redemption/Success.antt =====
-- A redemption that succeeded: the row that it leaves.
use edx_enterprise_subsidy.Common.{ℕ, String, ◌≡◌, ◌∙◌, sym, ap, Option, some, List, ◌∷◌, inl, inr}
use mathlib.Core.Path.{subst}
use edx_enterprise_subsidy.Schema.Ledger.{Transaction, NewTransaction, TransactionState}
use edx_enterprise_subsidy.Schema.Remote.{Event}
use edx_enterprise_subsidy.Service.{Env, World, ok, Result-cases}
use edx_enterprise_subsidy.Redemption.{
  create_redemption, create_transaction, attempt_redemption, with_identifier, with_key,
  store_created, serialize_transaction, save,
}
use edx_enterprise_subsidy.Redemption.Settled.{
  row, Settled, create_redemption_settles, create_redemption_refused,
}
use edx_enterprise_subsidy.Redemption.Linked.{attempt_redemption-IsCommitted}

module _ (env : Env) (user : ℕ) (key : String) (new : NewTransaction)
    (idempotency_key : Option String) where
  -- What a returned transaction `s` is: the ledger's transaction `t`, committed under the id of its
  -- enrollment, in the table at the end; no reversal was written.
  pub record Success (v w' : World) (s : Transaction) : Type 0 where
    pub t : Transaction
    pub rows : List Transaction
    pub id : Option String
    pub created : env.create_transaction (with_key env new idempotency_key v) v ≡ ok (t, rows)
    pub result : s ≡ record (with_identifier id t) { state = TransactionState.committed }
    pub stored : row s.uuid w' ≡ some s
    pub reversals : w'.reversals ≡ v.reversals

  abbrev pub created_world : Transaction → List Transaction → World → World
  created_world t rows v = record v {
    transactions = rows;
    events = Event.transaction_created (serialize_transaction t v.reversals) ∷ v.events;
  }

  abbrev pub after_created : Transaction → List Transaction → World → World
  after_created t rows v =
      (save (record t { state = TransactionState.pending }) (created_world t rows v)).1

  pub create_redemption-eq-attempt :
      (t : Transaction) (rows : List Transaction) (v : World)
      → env.create_transaction (with_key env new idempotency_key v) v ≡ ok (t, rows)
      → create_redemption env user key new idempotency_key v
        ≡ attempt_redemption env user key
            (record t { state = TransactionState.pending })
            (after_created t rows v)
  unfolding create_redemption create_transaction
  create_redemption-eq-attempt t rows v h = rw (h, store_created)

  Success-of_created :
      (t : Transaction) (rows : List Transaction) (v w' : World) (s : Transaction)
      → env.create_transaction (with_key env new idempotency_key v) v ≡ ok (t, rows)
      → create_redemption env user key new idempotency_key v ≡ (ok s, w')
      → Success v w' s
  Success-of_created t rows v w' s h k =
      let settled =
        subst (Settled t.uuid (created_world t rows v)) k
          (create_redemption_settles env user key new idempotency_key t rows v h) in
      let attempt = sym (create_redemption-eq-attempt t rows v h) ∙ k in
      let committed =
        attempt_redemption-IsCommitted env user key (record t { state = TransactionState.pending })
          (after_created t rows v) s (ap (λ p. p.0) attempt) in
      record {
        t = t;
        rows = rows;
        id = committed.id;
        created = h;
        result = committed.result;
        stored = subst (λ u. row u w' ≡ some s) (sym settled.1) settled.0;
        reversals = settled.4;
      }

  pub create_redemption-Success :
      (v w' : World) (s : Transaction)
      → create_redemption env user key new idempotency_key v ≡ (ok s, w')
      → Success v w' s
  create_redemption-Success v w' s k =
      elim (Result-cases (env.create_transaction (with_key env new idempotency_key v) v)) [
        | inl ((t, rows), h) ↦ Success-of_created t rows v w' s h k
        | inr (e, h) ↦ cc (create_redemption_refused env user key new idempotency_key e v h)
      ]
