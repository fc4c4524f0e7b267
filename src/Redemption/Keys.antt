-- ===== src/Redemption/Keys.antt =====
-- Idempotency keys, as docs/decisions/0008-idempotency-keys.rst and the endpoints of transactions
-- document them: what openedx_ledger does with a key, and what clients use for a key.
use edx_enterprise_subsidy.Common.{
  ℕ, ◌≡◌, ◌≢◌, ◌⊎◌, inl, inr, String, false, Option, some, none, List, find_row,
}
use edx_enterprise_subsidy.Schema.Ledger.{Transaction, NewTransaction}
use edx_enterprise_subsidy.Schema.Subsidy.{Subsidy}
use edx_enterprise_subsidy.Service.{Env, World, ok}
use edx_enterprise_subsidy.Service.Quiet.{SameTables}
use edx_enterprise_subsidy.Batches.Sorted.{IsDistinct}
use edx_enterprise_subsidy.Subsidy.{is_reversed}
use edx_enterprise_subsidy.Redemption.{with_key}
use edx_enterprise_subsidy.Redemption.Settled.{row}

-- a row that the ledger has made: under a new uuid, as it was asked for, and beside the other rows
pub record Made (n : NewTransaction) (w : World) (t : Transaction) (rows : List Transaction)
    : Type 0 where
  pub fresh : row t.uuid w ≡ none
  pub others : (x : ℕ) → x ≢ t.uuid → find_row (λ (r : Transaction). r.uuid) x rows ≡ row x w
  pub ledger_kept : t.ledger_uuid ≡ n.ledger_uuid
  pub user_kept : t.lms_user_id ≡ n.lms_user_id
  pub key_kept : t.content_key ≡ n.content_key
  pub not_reversed : is_reversed w.reversals t ≡ false

-- a row that was there, in the same ledger and under the same key, whatever else it holds
pub record Got (n : NewTransaction) (w : World) (t : Transaction) (rows : List Transaction)
    : Type 0 where
  pub stored : row t.uuid w ≡ some t
  pub unchanged : rows ≡ w.transactions
  pub ledger_same : t.ledger_uuid ≡ n.ledger_uuid
  pub key_same : t.idempotency_key ≡ n.idempotency_key

-- `create_transaction` of openedx_ledger creates a transaction, or just gets the one with the same
-- ledger and idempotency key; the table has no uuid twice.
pub record GetsOrCreates (env : Env) : Type 0 where
  pub answers :
      (n : NewTransaction) (w : World) (t : Transaction) (rows : List Transaction)
      → IsDistinct (λ (x : Transaction). x.uuid) w.transactions
      → env.create_transaction n w ≡ ok (t, rows)
      → Made n w t rows ⊎ Got n w t rows

-- A key hashes the learner, the content, the policy and the inactive redemptions so far: a row that
-- has the key of a request already is of the same learner and content, and was not reversed.
abbrev pub OwnKey : NewTransaction → World → Type 0
OwnKey n w =
    (t : Transaction)
    → row t.uuid w ≡ some t
    → t.ledger_uuid ≡ n.ledger_uuid
    → t.idempotency_key ≡ n.idempotency_key
    → (t.lms_user_id ≡ n.lms_user_id)
      × (t.content_key ≡ n.content_key)
      × (is_reversed w.reversals t ≡ false)

-- the same of each transaction that `redeem` may ask the ledger for, under a given or a generated key
abbrev pub KeysOf : Env → Subsidy → ℕ → String → Option String → World → Type 0
KeysOf env self user key idempotency_key w =
    (v : World) (n : NewTransaction)
    → SameTables w v
    → self.ledger ≡ some n.ledger_uuid
    → n.lms_user_id ≡ some user
    → n.content_key ≡ some key
    → OwnKey (with_key env n idempotency_key v) v

-- what was asked of the ledger
abbrev pub AsAsked : NewTransaction → Transaction → Type 0
AsAsked new s =
    (s.ledger_uuid ≡ new.ledger_uuid)
    × (s.lms_user_id ≡ new.lms_user_id)
    × (s.content_key ≡ new.content_key)

-- made or found, the transaction is as it was asked for
pub Made-or_Got :
    (n : NewTransaction) (w : World) (t : Transaction) (rows : List Transaction)
    → OwnKey n w
    → Made n w t rows ⊎ Got n w t rows
    → AsAsked n t × (is_reversed w.reversals t ≡ false)
Made-or_Got n w t rows own (inl made) =
    ((made.ledger_kept, made.user_kept, made.key_kept), made.not_reversed)
Made-or_Got n w t rows own (inr got) =
    let (user, key, unreversed) = own t got.stored got.ledger_same got.key_same in
    ((got.ledger_same, user, key), unreversed)
