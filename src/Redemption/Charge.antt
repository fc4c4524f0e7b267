-- ===== src/Redemption/Charge.antt =====
-- What a redemption charges to the ledger.
use edx_enterprise_subsidy.Common.{
  ℕ, ◌*◌, ◌≤◌, String, ◌≡◌, ◌⊎◌, sym, ap, refl, true, arith, Option, none, some, List,
}
use edx_enterprise_subsidy.Common.Int.{ℤ, pos, negsuc, neg, ◌≤ℤ◌}
use edx_enterprise_subsidy.Schema.Ledger.{Transaction, NewTransaction, Metadata}
use edx_enterprise_subsidy.Schema.Subsidy.{Subsidy}
use edx_enterprise_subsidy.Service.{Env, World, ok}
use edx_enterprise_subsidy.Subsidy.{content_price_for, price_for_content, current_balance}
use edx_enterprise_subsidy.Redemption.{redeem, new_redemption, with_key}
use edx_enterprise_subsidy.Redemption.Inversion.{redeem-Created}
use edx_enterprise_subsidy.Redemption.Success.{create_redemption-Success}

-- A charge that follows the request: the requested price, within 80 and 120 percent of the canonical
-- one, or the canonical price where none was requested, or 0.
abbrev IsFairPrice : Option ℤ → ℕ → ℕ → Type 0
IsFairPrice requested canonical price =
    ((requested ≡ some (pos price))
      × (80 * canonical ≤ 100 * price)
      × (100 * price ≤ 120 * canonical))
    ⊎ (((requested ≡ none) ⊎ (requested ≡ some (pos 0))) × (price ≡ canonical))

content_price_for-IsFairPrice :
    (requested : Option ℤ) (canonical price : ℕ)
    → content_price_for requested canonical ≡ ok price
    → IsFairPrice requested canonical price
unfolding content_price_for
content_price_for-IsFairPrice none canonical price h = ground arith
content_price_for-IsFairPrice (some (pos n)) canonical price h = ground arith
content_price_for-IsFairPrice (some (negsuc n)) canonical price h = ground arith

-- The charge of a redemption that started at `w` and created `t` in the ledger.
pub record Charge (env : Env) (self : Subsidy) (key : String) (requested : Option ℤ) (w : World)
    (t : Transaction) : Type 0 where
  pub canonical : ℕ
  pub price : ℕ
  pub balance : ℤ
  pub w1 : World
  pub w3 : World
  pub from_catalog : price_for_content env self key w ≡ (ok canonical, w1)
  pub from_ledger : current_balance env self w1 ≡ (ok balance, w3)
  pub is_fair : IsFairPrice requested canonical price
  pub affordable : pos price ≤ℤ balance
  pub new : NewTransaction
  pub v : World
  pub rows : List Transaction
  pub asked : env.create_transaction new v ≡ ok (t, rows)
  pub charged : new.quantity ≡ neg (pos price)

-- A redemption that reports a new transaction asked the ledger for a transaction of minus its price:
-- a price within the balance that the ledger gave, and either the requested price, within 80 and
-- 120 percent of what the catalog gave, or, with none or 0 requested, the catalog's price.
pub redeem-Charge :
    (env : Env) (self : Subsidy) (user : ℕ) (key : String) (policy : ℕ)
    (idempotency_key : Option String) (requested : Option ℤ) (metadata : Option Metadata)
    (w w' : World) (s : Transaction)
    → redeem env self user key policy idempotency_key requested metadata w ≡ (ok (some s, true), w')
    → (t : Transaction) × Charge env self key requested w t × (t.uuid ≡ s.uuid)
unfolding new_redemption
redeem-Charge env self user key policy idempotency_key requested metadata w w' s h =
    let c = redeem-Created env self user key policy idempotency_key requested metadata w w' s h in
    let n = new_redemption env self c.ledger user key c.price policy c.email c.summary metadata in
    let d = create_redemption-Success env user key n idempotency_key c.v w' s c.redeemed in
    (
      d.t,
      record {
        canonical = c.by_price.canonical;
        price = c.price;
        balance = c.by_price.balance;
        w1 = c.by_price.w1;
        w3 = c.by_price.w3;
        from_catalog = c.by_price.from_catalog;
        from_ledger = c.by_price.from_ledger;
        is_fair =
            content_price_for-IsFairPrice requested c.by_price.canonical c.price c.by_price.priced;
        affordable = ground (arith, c.by_price.affordable);
        new = with_key env n idempotency_key c.v;
        v = c.v;
        rows = d.rows;
        asked = d.created;
        charged = refl;
      },
      sym (ap (λ x. x.uuid) d.result),
    )
