-- ===== src/Redemption/Standing.antt =====
-- The redemptions that stand, as an abstract view of the ledger: whose learner has which content from
-- which ledger. It forgets the rows, their order, prices, keys and policies.
use edx_enterprise_subsidy.Common.{
  ℕ, ◌≡◌, ◌≢◌, refl, ◌∙◌, sym, ap, ◌⊎◌, inl, inr, ◌↔◌, String, false, ◌==◌, ==_iff, Option, none,
  some, Bool-cases, any, arith,
}
use mathlib.Core.Path.{subst}
use edx_enterprise_subsidy.Schema.Ledger.{Transaction, Reversal, TransactionState}
use edx_enterprise_subsidy.Service.{Env, World, Result, ok, err, Exception}
use edx_enterprise_subsidy.Subsidy.{is_reversed}
use edx_enterprise_subsidy.Redemption.{attempt_redemption, with_identifier}
use edx_enterprise_subsidy.Redemption.Settled.{row, Settled, attempt_redemption-Settled}
use edx_enterprise_subsidy.Redemption.Linked.{attempt_redemption-IsCommitted}

-- the entry of the view that a transaction is about
pub record IsFor (t : Transaction) (ledger learner : ℕ) (content : String) : Type 0 where
  pub ledger_is : t.ledger_uuid ≡ ledger
  pub learner_is : t.lms_user_id ≡ some learner
  pub content_is : t.content_key ≡ some content

-- the view: a committed row without a reversal
pub record Standing (w : World) (ledger learner : ℕ) (content : String) : Type 0 where
  pub transaction : Transaction
  pub stored : row transaction.uuid w ≡ some transaction
  pub committed : transaction.state ≡ TransactionState.committed
  pub unreversed : is_reversed w.reversals transaction ≡ false
  pub entry : IsFor transaction ledger learner content

-- the two steps of the abstract machine: to grant an entry, and to refuse it
abbrev pub Grants : Transaction → World → World → Type 0
Grants t w v =
    (ledger learner : ℕ) (content : String)
    → Standing v ledger learner content
      ↔ (Standing w ledger learner content ⊎ IsFor t ledger learner content)

abbrev pub Refuses : World → World → Type 0
Refuses w v =
    (ledger learner : ℕ) (content : String)
    → Standing v ledger learner content ↔ Standing w ledger learner content

-- a return grants, an exception refuses
abbrev pub Refines : Transaction → World → Result Transaction × World → Type 0
Refines t w (ok s, v) = Grants t w v
Refines t w (err e, v) = Refuses w v

abbrev transaction_or : Transaction → Option Transaction → Transaction
transaction_or default none = default
transaction_or default (some t) = t

module _ (w v : World) (u : ℕ) (reversals : v.reversals ≡ w.reversals)
    (others : (x : ℕ) → x ≢ u → row x v ≡ row x w) where
  unreversed_in :
      (x : Transaction) → is_reversed w.reversals x ≡ false → is_reversed v.reversals x ≡ false
  unreversed_in x h = subst (λ rs. is_reversed rs x ≡ false) (sym reversals) h

  -- an entry of another row is in both views
  pub carried :
      (ledger learner : ℕ) (content : String) (s : Standing w ledger learner content)
      → s.transaction.uuid ≢ u
      → Standing v ledger learner content
  carried ledger learner content s ne = record {
    transaction = s.transaction;
    stored = others s.transaction.uuid ne ∙ s.stored;
    committed = s.committed;
    unreversed = unreversed_in s.transaction s.unreversed;
    entry = s.entry;
  }

  pub carried_back :
      (ledger learner : ℕ) (content : String) (s : Standing v ledger learner content)
      → s.transaction.uuid ≢ u
      → Standing w ledger learner content
  carried_back ledger learner content s ne = record {
    transaction = s.transaction;
    stored = sym (others s.transaction.uuid ne) ∙ s.stored;
    committed = s.committed;
    unreversed = subst (λ rs. is_reversed rs s.transaction ≡ false) reversals s.unreversed;
    entry = s.entry;
  }

same_row :
    (w : World) (x t : Transaction)
    → row x.uuid w ≡ some x
    → row t.uuid w ≡ some t
    → x.uuid ≡ t.uuid
    → x ≡ t
same_row w x t h k e = ap (transaction_or x) (sym h ∙ ap (λ u. row u w) e ∙ k)

pub pending_committed :
    (t : Transaction)
    → t.state ≡ TransactionState.pending
    → t.state ≡ TransactionState.committed
    → ⊥
pending_committed t h k = cc

-- the row of a transaction that does not stand is not the one of an entry
pub another_row :
    (w : World) (t : Transaction) (ledger learner : ℕ) (content : String)
    (s : Standing w ledger learner content)
    → row t.uuid w ≡ some t
    → ¬ (t.state ≡ TransactionState.committed)
    → s.transaction.uuid ≢ t.uuid
another_row w t ledger learner content s stored undone e = undone (
    subst (λ (x : Transaction). x.state ≡ TransactionState.committed)
      (same_row w s.transaction t s.stored stored e) s.committed)

failed_committed :
    (t : Transaction) → t.state ≡ TransactionState.failed → t.state ≡ TransactionState.committed → ⊥
failed_committed t h k = cc

pub IsFor-of :
    (s t : Transaction) (ledger learner : ℕ) (content : String)
    → s.ledger_uuid ≡ t.ledger_uuid
    → s.lms_user_id ≡ t.lms_user_id
    → s.content_key ≡ t.content_key
    → IsFor s ledger learner content ↔ IsFor t ledger learner content
IsFor-of s t ledger learner content a b c = (
  λ f. record {
    ledger_is = sym a ∙ f.ledger_is;
    learner_is = sym b ∙ f.learner_is;
    content_is = sym c ∙ f.content_is;
  },
  λ f. record {
    ledger_is = a ∙ f.ledger_is;
    learner_is = b ∙ f.learner_is;
    content_is = c ∙ f.content_is;
  },
)

module _ (t : Transaction) (w : World) (stored : row t.uuid w ≡ some t)
    (pending : t.state ≡ TransactionState.pending)
    (unreversed : is_reversed w.reversals t ≡ false) where
  granted :
      (s : Transaction) (v : World) (id : Option String)
      → Settled t.uuid w (ok s, v)
      → s ≡ record (with_identifier id t) { state = TransactionState.committed }
      → Grants t w v
  granted s v id (stored', same, committed, events, reversals, others) is ledger learner content =
      let (to_t, to_s) =
        IsFor-of s t ledger learner content (ap (λ x. x.ledger_uuid) is)
          (ap (λ x. x.lms_user_id) is) (ap (λ x. x.content_key) is) in
      let here : row s.uuid v ≡ some s = ap (λ u. row u v) same ∙ stored' in
      (
        λ st. elim (Bool-cases (st.transaction.uuid == t.uuid)) [
          | inl e ↦
              let eq = (==_iff st.transaction.uuid t.uuid).0 e in
              let is_s = same_row v st.transaction s st.stored here (eq ∙ sym same) in
              inr (to_t (subst (λ x. IsFor x ledger learner content) is_s st.entry))
          | inr ne ↦ inl (
              carried_back w v t.uuid reversals others ledger learner content st
                (ground (arith, ne)))
        ],
        λ either. elim either [
          | inl st ↦
              carried w v t.uuid reversals others ledger learner content st
                (another_row w t ledger learner content st stored (pending_committed t pending))
          | inr f ↦ record {
            transaction = s;
            stored = here;
            committed = committed;
            unreversed =
                subst (λ rs. is_reversed rs s ≡ false) (sym reversals)
                  (subst (λ u. any (λ (r : Reversal). r.transaction_uuid == u) w.reversals ≡ false)
                    (sym same) unreversed);
            entry = to_s f;
          }
        ],
      )

  refused : (e : Exception) (v : World) → Settled t.uuid w (err e, v) → Refuses w v
  refused e v (s, stored', same, failed, events, reversals, others) ledger learner content =
      let here : row s.uuid v ≡ some s = ap (λ u. row u v) same ∙ stored' in
      (
        λ st. carried_back w v t.uuid reversals others ledger learner content st (
            subst (λ u. st.transaction.uuid ≢ u) same
              (another_row v s ledger learner content st here (failed_committed s failed))),
        λ st.
            carried w v t.uuid reversals others ledger learner content st
              (another_row w t ledger learner content st stored (pending_committed t pending)),
      )

  module _ (env : Env) (user : ℕ) (key : String) where
    ended :
        (r : Result Transaction × World)
        → Settled t.uuid w r
        → ((s : Transaction)
            → r.0 ≡ ok s
            → (id : Option String) × (s
                ≡ record (with_identifier id t) { state = TransactionState.committed }))
        → Refines t w r
    ended (ok s, v) settled result = let (id, is) = result s refl in granted s v id settled is
    ended (err e, v) settled result = refused e v settled

    -- An attempted redemption implements the abstract machine, whatever the other services answer: if
    -- it returns, the entry of its transaction stands besides those that stood before; if it raises,
    -- exactly those that stood before stand. For a pending transaction in the table, without a
    -- reversal.
    pub attempt_redemption-Refines : Refines t w (attempt_redemption env user key t w)
    attempt_redemption-Refines =
        ended (attempt_redemption env user key t w) (attempt_redemption-Settled env user key t w)
          (λ s h. let c = attempt_redemption-IsCommitted env user key t w s h in (c.id, c.result))
