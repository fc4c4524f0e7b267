-- ===== src/Reversals/Grown.antt =====
-- Reversals that are added to the table, and the contract of the ledger for one reversal.
use edx_enterprise_subsidy.Common.{
  ℕ, ◌+◌, ◌≡◌, ◌∙◌, sym, ap, Bool, false, ◌==◌, Option, none, some, List, [], ◌∷◌, length, any,
  arith, find_row,
}
use edx_enterprise_subsidy.Schema.Ledger.{Transaction, Reversal, ReversalKey}
use edx_enterprise_subsidy.Schema.Catalog.{DateValue}
use edx_enterprise_subsidy.Service.{Env, World, Result, ok, err, Exec, pure}
use edx_enterprise_subsidy.Service.Quiet.{Quiet, SameTables, SameTables-refl}
use edx_enterprise_subsidy.Service.Inversion.{bind-ok}
use edx_enterprise_subsidy.Subsidy.{is_reversed}
use edx_enterprise_subsidy.Unenrollment.{
  load, or_missing, reverse_transaction, listen_for_transaction_reversal, reversible, time_or_now,
  generate_transaction_reversal_idempotency_key,
}

abbrev has_reversal : ℕ → List Reversal → Bool
has_reversal u = any (λ r. r.transaction_uuid == u)

-- no transaction has two reversals
abbrev UniqueReversals : List Reversal → Type 0
UniqueReversals [] = Unit
UniqueReversals (r ∷ rest) = (has_reversal r.transaction_uuid rest ≡ false) × UniqueReversals rest

-- `openedx_ledger.api.reverse_full_transaction` on a transaction without a reversal: when it returns,
-- it has written the reversal that it returns, of that transaction.
pub record WritesOne (env : Env) : Type 0 where
  pub writes :
      (t : Transaction) (key : ReversalKey) (r : Reversal) (w w' : World)
      → is_reversed w.reversals t ≡ false
      → env.reverse_full_transaction (listen_for_transaction_reversal env) t key w ≡ (ok r, w')
      → (w'.reversals ≡ r ∷ w.reversals) × (r.transaction_uuid ≡ t.uuid)

-- `n` reversals have been added, and none to a transaction that had one
pub record Grown (w : World) (n : ℕ) (w' : World) : Type 0 where
  pub count : length w'.reversals ≡ n + length w.reversals
  pub unique : UniqueReversals w.reversals → UniqueReversals w'.reversals

pub Grown-same : (w w' : World) → w'.reversals ≡ w.reversals → Grown w 0 w'
Grown-same w w' h = record {
  count = let c = ap length h in omega arith;
  unique = λ u. coe 0 1 (i. UniqueReversals (sym h i)) u;
}

pub Grown-trans : (u v w : World) (m n : ℕ) → Grown u m v → Grown v n w → Grown u (m + n) w
Grown-trans u v w m n g h = record {
  count = let a = g.count in let b = h.count in omega arith;
  unique = λ x. h.unique (g.unique x);
}

Grown-one :
    (w w' : World) (t : Transaction) (r : Reversal)
    → is_reversed w.reversals t ≡ false
    → w'.reversals ≡ r ∷ w.reversals
    → r.transaction_uuid ≡ t.uuid
    → Grown w 1 w'
Grown-one w w' t r fresh h e = record {
  count = let c = ap length h in omega arith;
  unique = λ u.
      coe 0 1 (i. UniqueReversals (sym h i)) (ap (λ k. has_reversal k w.reversals) e ∙ fresh, u);
}

pub reversible-new :
    (w : World) (o : Option Transaction) (t : Transaction)
    → reversible w o ≡ some t
    → is_reversed w.reversals t ≡ false
reversible-new w none t h = cc
reversible-new w (some s) t h = ground arith

abbrev count_of : Result ℕ → ℕ
count_of (ok n) = n
count_of (err e) = 0

pub Grown-ok : (w v w' : World) (m n : ℕ) → Grown w m v → pure m v ≡ (ok n, w') → Grown w n w'
Grown-ok w v w' m n g h = coe 0 1 (i. Grown w (count_of (h i).0) (h i).1) g

pub kept :
    {A : Type 0} (m : Exec A) (v v' : World) (r : Result A)
    → Quiet m
    → m v ≡ (r, v')
    → v'.reversals ≡ v.reversals
kept m v v' r q h = sym (ap (λ x. x.1.reversals) h) ∙ (q.at v).reversals

-- a quiet step before another
pub Grown-after :
    {A : Type 0} (m : Exec A) (w v w' : World) (r : Result A) (n : ℕ)
    → Quiet m
    → m w ≡ (r, v)
    → Grown v n w'
    → Grown w n w'
Grown-after m w v w' r n q h g = record {
  count = g.count ∙ ap (λ rs. n + length rs) (kept m w v r q h);
  unique = λ u. g.unique (coe 0 1 (i. UniqueReversals (sym (kept m w v r q h) i)) u);
}

or_missing-same : (o : Option Transaction) (w : World) → SameTables w (or_missing o w).1
or_missing-same none w = SameTables-refl w
or_missing-same (some t) w = SameTables-refl w

load-Quiet : (u : ℕ) → Quiet (load u)
unfolding load
load-Quiet u = record {
  at = λ w. or_missing-same (find_row (λ (t : Transaction). t.uuid) u w.transactions) w;
}

abbrev pair_of : {A : Type 0} → Result (ℕ × A) → ℕ
pair_of (ok (n, _)) = n
pair_of (err e) = 0

pub Grown-pair :
    {A : Type 0} (w v w' : World) (m n : ℕ) (a b : A)
    → Grown w m v
    → pure {A = ℕ × A} (m, a) v ≡ (ok (n, b), w')
    → Grown w n w'
Grown-pair w v w' m n a b g h = coe 0 1 (i. Grown w (pair_of (h i).0) (h i).1) g

module _ (env : Env) (contract : WritesOne env) where
  -- a reversal that returned: the row is loaded again, and an event is sent
  pub reverse_transaction_writes :
      (t : Transaction) (time : Option DateValue) (w w' : World) (r : Reversal)
      → is_reversed w.reversals t ≡ false
      → reverse_transaction env t time w ≡ (ok r, w')
      → (s : Reversal) × (w'.reversals ≡ s ∷ w.reversals) × (s.transaction_uuid ≡ t.uuid)
  unfolding reverse_transaction
  reverse_transaction_writes t time w w' r fresh h =
      let key =
        generate_transaction_reversal_idempotency_key t.fulfillment_identifier
          (time_or_now env time w) in
      let (s, v, reversed, k) =
        bind-ok (env.reverse_full_transaction (listen_for_transaction_reversal env) t key) _ w h in
      let (row, v', loaded, sent) = bind-ok (load t.uuid) _ v k in
      let (rows, e) = contract.writes t key s w v fresh reversed in
      (
        s,
        sym (ap (λ x. x.1.reversals) sent)
            ∙ kept (load t.uuid) v v' (ok row) (load-Quiet t.uuid) loaded
            ∙ rows,
        e,
      )

  pub reverse_transaction-Grown :
      (t : Transaction) (time : Option DateValue) (w w' : World) (r : Reversal)
      → is_reversed w.reversals t ≡ false
      → reverse_transaction env t time w ≡ (ok r, w')
      → Grown w 1 w'
  reverse_transaction-Grown t time w w' r fresh h =
      let (s, rows, e) = reverse_transaction_writes t time w w' r fresh h in
      Grown-one w w' t s fresh rows e
