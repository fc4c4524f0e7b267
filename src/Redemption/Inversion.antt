-- ===== src/Redemption/Inversion.antt =====
-- A redemption that created a transaction: what it went through.
use mathlib.Core.Path.{subst}
use edx_enterprise_subsidy.Common.{
  ℕ, String, ◌≡◌, ap, arith, Bool, true, false, Option, none, some, if◌then◌else◌, Option-cases,
  inl, inr,
}
use edx_enterprise_subsidy.Common.Int.{ℤ, pos, leb_ℤ}
use edx_enterprise_subsidy.Schema.Ledger.{Transaction, Metadata}
use edx_enterprise_subsidy.Schema.Subsidy.{Subsidy}
use edx_enterprise_subsidy.Service.{
  Env, World, Result, ok, err, Exec, Exception, rescue, catch, lift, pure, ◌>>=◌,
}
use edx_enterprise_subsidy.Service.Quiet.{Quiet, SameTables, SameTables-refl, SameTables-trans}
use edx_enterprise_subsidy.Service.Inversion.{bind-ok}
use edx_enterprise_subsidy.ContentMetadata.{SummaryData}
use edx_enterprise_subsidy.Subsidy.{
  price_for_content, content_price_for, current_balance, is_redeemable, email_for_learner,
  metadata_summary_for_content, ledger_or_raise, get_committed_transaction_no_reversal,
}
use edx_enterprise_subsidy.Subsidy.Quiet.{
  email_for_learner-Quiet, metadata_summary_for_content-Quiet, ledger_or_raise-Quiet,
  is_redeemable-Quiet,
}
use edx_enterprise_subsidy.Redemption.{
  create_redemption, new_redemption, redeem_at_price, redeem_new, redeem, on_redemption_error,
}

module _ (env : Env) (self : Subsidy) (user : ℕ) (key : String) (policy : ℕ)
    (idempotency_key : Option String) (requested : Option ℤ) (metadata : Option Metadata) where
  abbrev run : Exec (Option Transaction × Bool)
  run = redeem env self user key policy idempotency_key requested metadata

  not_rescued :
      (r : Result (Option Transaction × Bool)) (v w' : World) (s : Transaction)
      → rescue r (on_redemption_error env self) v ≡ (ok (some s, true), w')
      → (r ≡ ok (some s, true)) × (v ≡ w')
  not_rescued (ok a) v w' s h = (cc, cc)
  not_rescued (err Exception.ledger_balance_exceeded) v w' s h = cc
  not_rescued (err _) v w' s h = cc

  -- what `is_redeemable` has established when it answers yes: the price that the catalog gave, the
  -- balance that the ledger gave, and the comparison of the two
  pub record Priced (w : World) (price : ℕ) : Type 0 where
    pub canonical : ℕ
    pub balance : ℤ
    pub w1 : World
    pub w3 : World
    pub from_catalog : price_for_content env self key w ≡ (ok canonical, w1)
    pub from_ledger : current_balance env self w1 ≡ (ok balance, w3)
    pub priced : content_price_for requested canonical ≡ ok price
    pub affordable : leb_ℤ (pos price) balance ≡ true

  Priced-end :
      (w : World) (canonical p price : ℕ) (balance : ℤ) (w1 w2 w3 v : World)
      → price_for_content env self key w ≡ (ok canonical, w1)
      → lift (content_price_for requested canonical) w1 ≡ (ok p, w2)
      → current_balance env self w2 ≡ (ok balance, w3)
      → pure {A = Bool × ℕ} (leb_ℤ (pos p) balance, p) w3 ≡ (ok (true, price), v)
      → Priced w price
  Priced-end w canonical p price balance w1 w2 w3 v h h' h'' k = record {
    canonical = canonical;
    balance = balance;
    w1 = w1;
    w3 = w3;
    from_catalog = h;
    from_ledger = cc;
    priced = cc;
    affordable = cc;
  }

  balanced :
      (w : World) (canonical p price : ℕ) (w1 w2 v : World)
      → price_for_content env self key w ≡ (ok canonical, w1)
      → lift (content_price_for requested canonical) w1 ≡ (ok p, w2)
      → (current_balance env self >>= λ balance. pure {A = Bool × ℕ} (leb_ℤ (pos p) balance, p)) w2
        ≡ (ok (true, price), v)
      → Priced w price
  balanced w canonical p price w1 w2 v h h' k =
      let (balance, w3, h'', k') = bind-ok (current_balance env self) _ w2 k in
      Priced-end w canonical p price balance w1 w2 w3 v h h' h'' k'

  is_redeemable-Priced :
      (w v : World) (price : ℕ)
      → is_redeemable env self key requested w ≡ (ok (true, price), v)
      → Priced w price
  unfolding is_redeemable
  is_redeemable-Priced w v price h =
      let (canonical, w1, h0, k) = bind-ok (price_for_content env self key) _ w h in
      let (p, w2, h', k') = bind-ok (lift (content_price_for requested canonical)) _ w1 k in
      balanced w canonical p price w1 w2 v h0 h' k'

  -- The steps behind `redeem` having created `s` and ended at `w'`.
  pub record Created (w w' : World) (s : Transaction) : Type 0 where
    pub price : ℕ
    pub by_price : Priced w price
    pub ledger : ℕ
    pub email : Option String
    pub summary : Option SummaryData
    pub v : World
    pub same_tables : SameTables w v
    pub none_before : get_committed_transaction_no_reversal self user key w ≡ none
    pub on_ledger : self.ledger ≡ some ledger
    pub redeemed :
        create_redemption env user key
          (new_redemption env self ledger user key price policy email summary metadata)
          idempotency_key
          v
        ≡ (ok s, w')

  ledger-ok :
      (o : Option ℕ) (w v : World) (ledger : ℕ)
      → ledger_or_raise o w ≡ (ok ledger, v)
      → (o ≡ some ledger) × (v ≡ w)
  ledger-ok none w v ledger h = cc
  ledger-ok (some l) w v ledger h = (cc, cc)

  -- the tables after a quiet step that returned
  after-Quiet :
      {A : Type 0} (m : Exec A) (u w v : World) (a : A)
      → Quiet m
      → m w ≡ (ok a, v)
      → SameTables u w
      → SameTables u v
  after-Quiet m u w v a q h same =
      SameTables-trans u w v same (subst (SameTables w) (ap (λ p. p.1) h) (q.at w))

  abbrev finish : Transaction → Exec (Option Transaction × Bool)
  finish t = pure (some t, true)

  module _ (w w' : World) (s : Transaction) (price : ℕ)
      (fresh : get_committed_transaction_no_reversal self user key w ≡ none)
      (by_price : Priced w price) where
    Created-end :
        (email : Option String) (summary : Option SummaryData) (ledger : ℕ) (t : Transaction)
        (v v' : World)
        → SameTables w v
        → self.ledger ≡ some ledger
        → create_redemption env user key
            (new_redemption env self ledger user key price policy email summary metadata)
            idempotency_key
            v
          ≡ (ok t, v')
        → finish t v' ≡ (ok (some s, true), w')
        → Created w w' s
    Created-end email summary ledger t v v' same on_ledger h k = record {
      price = price;
      by_price = by_price;
      ledger = ledger;
      email = email;
      summary = summary;
      v = v;
      same_tables = same;
      none_before = fresh;
      on_ledger = on_ledger;
      redeemed = cc;
    }

    on_ledger-Created :
        (email : Option String) (summary : Option SummaryData) (ledger : ℕ) (w3 v : World)
        → SameTables w w3
        → ledger_or_raise self.ledger w3 ≡ (ok ledger, v)
        → (create_redemption env user key
                (new_redemption env self ledger user key price policy email summary metadata)
                idempotency_key
              >>= finish)
            v
          ≡ (ok (some s, true), w')
        → Created w w' s
    on_ledger-Created email summary ledger w3 v same h k =
        let (t, v', h', k') =
          bind-ok
            (create_redemption env user key
              (new_redemption env self ledger user key price policy email summary metadata)
              idempotency_key)
            finish v k in
        Created-end email summary ledger t v v'
          (after-Quiet (ledger_or_raise self.ledger) w w3 v ledger
            (ledger_or_raise-Quiet self.ledger) h same)
          (ledger-ok self.ledger w3 v ledger h).0 h' k'

    summarised-Created :
        (email : Option String) (summary : Option SummaryData) (w2 w3 : World)
        → SameTables w w2
        → metadata_summary_for_content env self key w2 ≡ (ok summary, w3)
        → (ledger_or_raise self.ledger >>= λ ledger.
              create_redemption env user key
                (new_redemption env self ledger user key price policy email summary metadata)
                idempotency_key
              >>= finish)
            w3
          ≡ (ok (some s, true), w')
        → Created w w' s
    summarised-Created email summary w2 w3 same h k =
        let (ledger, v, h', k') = bind-ok (ledger_or_raise self.ledger) _ w3 k in
        on_ledger-Created email summary ledger w3 v
          (after-Quiet (metadata_summary_for_content env self key) w w2 w3 summary
            (metadata_summary_for_content-Quiet env self key) h same)
          h' k'

    attempt-Created :
        (w1 : World)
        → SameTables w w1
        → redeem_at_price env self user key policy idempotency_key metadata price w1
          ≡ (ok (some s, true), w')
        → Created w w' s
    unfolding redeem_at_price
    attempt-Created w1 same h =
        let (email, w2, h2, k2) = bind-ok (email_for_learner env self user) _ w1 h in
        let (summary, w3, h3, k3) = bind-ok (metadata_summary_for_content env self key) _ w2 k2 in
        summarised-Created email summary w2 w3
          (after-Quiet (email_for_learner env self user) w w1 w2 email
            (email_for_learner-Quiet env self user) h2 same)
          h3 k3

  answered :
      (w w1 w' : World) (s : Transaction) (redeemable : Bool) (price : ℕ)
      → get_committed_transaction_no_reversal self user key w ≡ none
      → is_redeemable env self key requested w ≡ (ok (redeemable, price), w1)
      → (if redeemable
            then catch
                (redeem_at_price env self user key policy idempotency_key metadata price)
                (on_redemption_error env self)
            else pure (none, false))
          w1
        ≡ (ok (some s, true), w')
      → Created w w' s
  answered w w1 w' s false price fresh h k = cc
  answered w w1 w' s true price fresh h k =
      let (r, v) = redeem_at_price env self user key policy idempotency_key metadata price w1 in
      let (returned, ended) = not_rescued r v w' s k in
      attempt-Created w w' s price fresh (is_redeemable-Priced w w1 price h) w1
        (after-Quiet (is_redeemable env self key requested) w w w1 (true, price)
          (is_redeemable-Quiet env self key requested) h (SameTables-refl w))
        (λ i. (returned i, ended i))

  redeem_new-Created :
      (w w' : World) (s : Transaction)
      → get_committed_transaction_no_reversal self user key w ≡ none
      → redeem_new env self user key policy idempotency_key requested metadata w
        ≡ (ok (some s, true), w')
      → Created w w' s
  redeem_new-Created w w' s fresh h =
      let (answer, w1, h1, k1) = bind-ok (is_redeemable env self key requested) _ w h in
      answered w w1 w' s answer.0 answer.1 fresh h1 k1

  -- A redemption that reports a new transaction found none before, was priced within the balance,
  -- and created the transaction on the subsidy's ledger.
  pub redeem-Created :
      (w w' : World) (s : Transaction)
      → redeem env self user key policy idempotency_key requested metadata w
        ≡ (ok (some s, true), w')
      → Created w w' s
  unfolding redeem
  redeem-Created w w' s h =
      elim (Option-cases (get_committed_transaction_no_reversal self user key w)) [
        | inl fresh ↦ redeem_new-Created w w' s fresh (rw (fresh, redeem) at h)
        | inr (x, e) ↦ absurd (ground arith)
      ]
