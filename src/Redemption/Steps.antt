-- ===== src/Redemption/Steps.antt =====
-- `redeem` as a whole on the abstract machine of the redemptions that stand.
use edx_enterprise_subsidy.Common.{
  ℕ, ◌≡◌, ◌≢◌, refl, ◌∙◌, sym, ap, String, Bool, true, false, not, ◌&&◌, ==_iff, Option, none, some,
  eq_iff, find_holds, opt_eq, opt_str_eq, if◌then◌else◌,
}
use mathlib.Core.Path.{subst}
use edx_enterprise_subsidy.Common.Int.{ℤ}
use edx_enterprise_subsidy.Schema.Ledger.{Transaction, TransactionState, Metadata, is_committed}
use edx_enterprise_subsidy.Schema.Subsidy.{Subsidy}
use edx_enterprise_subsidy.Service.{
  Env, World, Result, ok, err, Exec, Exception, proceed, rescue, pure, ◌>>=◌,
}
use edx_enterprise_subsidy.Service.Quiet.{Quiet, SameTables, SameTables-refl, SameTables-trans}
use edx_enterprise_subsidy.ContentMetadata.{SummaryData}
use edx_enterprise_subsidy.Batches.Sorted.{IsDistinct}
use edx_enterprise_subsidy.Batches.Rows.{All-find, rows_found}
use edx_enterprise_subsidy.Subsidy.{
  ledger_or_raise, email_for_learner, metadata_summary_for_content, is_redeemable,
  get_committed_transaction_no_reversal, is_reversed,
}
use edx_enterprise_subsidy.Subsidy.Quiet.{
  email_for_learner-Quiet, metadata_summary_for_content-Quiet, is_redeemable-Quiet,
}
use edx_enterprise_subsidy.Redemption.{
  create_redemption, new_redemption, redeem_at_price, redeem_new, redeem, on_redemption_error,
}
use edx_enterprise_subsidy.Redemption.Settled.{row}
use edx_enterprise_subsidy.Redemption.Idempotence.{
  redeem_of_found, redeems, redeems_of_fields, found_of_row, get_committed-eq-find,
}
use edx_enterprise_subsidy.Redemption.Keys.{GetsOrCreates, KeysOf}
use edx_enterprise_subsidy.Redemption.Standing.{IsFor, Standing, Grants, Refuses}
use edx_enterprise_subsidy.Redemption.Machine.{
  Redeemed, Refuses-refl, Refuses-trans, Refuses-Grants, SameTables-Refuses,
  create_redemption-Redeemed,
}

opt_eq-some : (o : Option ℕ) (n : ℕ) → opt_eq o n ≡ true → o ≡ some n
opt_eq-some none n h = cc
opt_eq-some (some m) n h = ap (λ x. some x) ((==_iff m n).0 h)

opt_str_eq-some : (o : Option String) (s : String) → opt_str_eq o s ≡ true → o ≡ some s
opt_str_eq-some none s h = cc
opt_str_eq-some (some t) s h = ap (λ x. some x) ((eq_iff t s).0 h)

is_committed_only : (s : TransactionState) → is_committed s ≡ true → s ≡ TransactionState.committed
is_committed_only TransactionState.committed h = refl
is_committed_only TransactionState.created h = cc
is_committed_only TransactionState.pending h = cc
is_committed_only TransactionState.failed h = cc

both_true : (a b : Bool) → (a && b) ≡ true → (a ≡ true) × (b ≡ true)
both_true true b h = (refl, h)
both_true false b h = cc

not-true : (b : Bool) → not b ≡ true → b ≡ false
not-true true h = cc
not-true false h = refl

none_is_not_some : (x : Transaction) → ◌≢◌ {A = Option Transaction} none (some x)
none_is_not_some x h = cc

module _ (self : Subsidy) (user : ℕ) (key : String) where
  -- the entry that `redeem` is asked for
  abbrev pub Asked : (ℕ → Type 0) → Type 0
  Asked P = (ledger : ℕ) × (self.ledger ≡ some ledger) × P ledger

  -- a new transaction grants its entry, which is the one that was asked for; a transaction that was
  -- there says that this entry stands, and nothing has changed; all else refuses
  abbrev pub Steps : World → Result (Option Transaction × Bool) × World → Type 0
  Steps w (ok (some s, true), v) = Grants s w v × Asked (λ ledger. IsFor s ledger user key)
  Steps w (ok (some s, false), v) = (v ≡ w) × Asked (λ ledger. Standing w ledger user key)
  Steps w (ok (none, is_new), v) = Refuses w v
  Steps w (err e, v) = Refuses w v

  -- the same, of the part of `redeem` that has found no transaction
  abbrev New : World → Result (Option Transaction × Bool) × World → Type 0
  New w (ok (some s, true), v) = Grants s w v × Asked (λ ledger. IsFor s ledger user key)
  New w (ok (some s, false), v) = ⊥
  New w (ok (none, is_new), v) = Refuses w v
  New w (err e, v) = Refuses w v

  Steps-of : (w : World) (r : Result (Option Transaction × Bool) × World) → New w r → Steps w r
  Steps-of w (ok (some s, true), v) h = h
  Steps-of w (ok (some s, false), v) h = elim h [ ]
  Steps-of w (ok (none, is_new), v) h = h
  Steps-of w (err e, v) h = h

  before-New :
      (w u : World) (r : Result (Option Transaction × Bool) × World)
      → Refuses w u
      → New u r
      → New w r
  before-New w u (ok (some s, true), v) q (grants, asked) = (Refuses-Grants s w u v q grants, asked)
  before-New w u (ok (some s, false), v) q h = h
  before-New w u (ok (none, is_new), v) q h = Refuses-trans w u v q h
  before-New w u (err e, v) q h = Refuses-trans w u v q h

  proceed-New :
      {A : Type 0} (w v : World) (r : Result A) (f : A → Exec (Option Transaction × Bool))
      → Refuses w v
      → ((a : A) → New v (f a v))
      → New w (proceed r f v)
  proceed-New w v (ok a) f q h = before-New w v (f a v) q (h a)
  proceed-New w v (err e) f q h = q

  bind-New :
      {A : Type 0} (m : Exec A) (f : A → Exec (Option Transaction × Bool)) (w : World)
      → Quiet m
      → ((a : A) (v : World) → SameTables w v → New v (f a v))
      → New w ((m >>= f) w)
  bind-New m f w quiet h =
      let (r, v) = m w in
      proceed-New w v r f (SameTables-Refuses w v (quiet.at w)) (λ a. h a v (quiet.at w))

  -- the entry that is asked for does not stand, and the key is its own
  abbrev IsReady : Env → Option String → World → Type 0
  IsReady env idempotency_key w =
      IsDistinct (λ (x : Transaction). x.uuid) w.transactions
      × KeysOf env self user key idempotency_key w
      × ((ledger : ℕ) → self.ledger ≡ some ledger → ¬ Standing w ledger user key)

  IsReady-after :
      (env : Env) (idempotency_key : Option String) (w v : World)
      → SameTables w v
      → IsReady env idempotency_key w
      → IsReady env idempotency_key v
  IsReady-after env idempotency_key w v same (distinct, keys, unstood) = (
    subst (IsDistinct (λ (x : Transaction). x.uuid)) (sym same.transactions) distinct,
    λ u n h. keys u n (SameTables-trans w v u same h),
    λ ledger e s. unstood ledger e ((SameTables-Refuses w v same ledger user key).0 s),
  )

  module _ (env : Env) (promise : GetsOrCreates env) where
    rescued-New :
        (w : World) (r : Result (Option Transaction × Bool)) (v : World)
        → New w (r, v)
        → New w (rescue r (on_redemption_error env self) v)
    rescued-New w (ok (some s, true)) v h = h
    rescued-New w (ok (some s, false)) v h = h
    rescued-New w (ok (none, is_new)) v h = h
    rescued-New w (err Exception.ledger_balance_exceeded) v h = h
    rescued-New w (err _) v h = h

    returned-New :
        (policy : ℕ) (ledger price : ℕ) (email : Option String) (summary : Option SummaryData)
        (metadata : Option Metadata) (w : World) (r : Result Transaction × World)
        → self.ledger ≡ some ledger
        → Redeemed (new_redemption env self ledger user key price policy email summary metadata) w r
        → New w (proceed r.0 (λ t. pure {A = Option Transaction × Bool} (some t, true)) r.1)
    unfolding new_redemption
    returned-New policy ledger price email summary metadata w (ok s, v) e (grants, (a, b, c)) =
        (grants, (ledger, e, record { ledger_is = a; learner_is = b; content_is = c }))
    returned-New policy ledger price email summary metadata w (err x, v) e h = h

    on_ledger-New :
        (policy price : ℕ) (idempotency_key : Option String) (email : Option String)
        (summary : Option SummaryData) (metadata : Option Metadata) (o : Option ℕ) (w : World)
        → IsReady env idempotency_key w
        → self.ledger ≡ o
        → New w (
            (ledger_or_raise o >>= λ ledger.
            create_redemption env user key
              (new_redemption env self ledger user key price policy email summary metadata)
              idempotency_key
            >>= λ t. pure {A = Option Transaction × Bool} (some t, true))
              w)
    unfolding new_redemption
    on_ledger-New policy price idempotency_key email summary metadata none w ready e =
        Refuses-refl w
    on_ledger-New policy price idempotency_key email summary metadata (some ledger) w
          (distinct, keys, unstood) e =
        let new = new_redemption env self ledger user key price policy email summary metadata in
        returned-New policy ledger price email summary metadata w
          (create_redemption env user key new idempotency_key w) e
          (create_redemption-Redeemed env user key new idempotency_key w promise distinct refl refl
            (keys w new (SameTables-refl w) e refl refl) (unstood ledger e))

    redeem_at_price-New :
        (policy : ℕ) (idempotency_key : Option String) (metadata : Option Metadata) (price : ℕ)
        (w : World)
        → IsReady env idempotency_key w
        → New w (redeem_at_price env self user key policy idempotency_key metadata price w)
    unfolding redeem_at_price
    redeem_at_price-New policy idempotency_key metadata price w ready =
        bind-New (email_for_learner env self user) _ w (email_for_learner-Quiet env self user)
          λ email v same.
            let ready' = IsReady-after env idempotency_key w v same ready in
            bind-New (metadata_summary_for_content env self key) _ v
              (metadata_summary_for_content-Quiet env self key)
              λ summary u same'.
                on_ledger-New policy price idempotency_key email summary metadata self.ledger u
                  (IsReady-after env idempotency_key v u same' ready') refl

    if_redeemable-New :
        (redeemable : Bool) (m : Exec (Option Transaction × Bool)) (w : World)
        → New w (m w)
        → New w ((if redeemable then m else pure (none, false)) w)
    if_redeemable-New true m w h = h
    if_redeemable-New false m w h = Refuses-refl w

    redeem_new-New :
        (policy : ℕ) (idempotency_key : Option String) (requested : Option ℤ)
        (metadata : Option Metadata) (w : World)
        → IsReady env idempotency_key w
        → New w (redeem_new env self user key policy idempotency_key requested metadata w)
    redeem_new-New policy idempotency_key requested metadata w ready =
        bind-New (is_redeemable env self key requested) _ w
          (is_redeemable-Quiet env self key requested)
          λ (redeemable, price) v same. if_redeemable-New redeemable _ v (
            rescued-New v
              (redeem_at_price env self user key policy idempotency_key metadata price v).0
              (redeem_at_price env self user key policy idempotency_key metadata price v).1
              (redeem_at_price-New policy idempotency_key metadata price v
                (IsReady-after env idempotency_key w v same ready)))

  found-Standing :
      (w : World) (x : Transaction)
      → IsDistinct (λ (t : Transaction). t.uuid) w.transactions
      → get_committed_transaction_no_reversal self user key w ≡ some x
      → Asked (λ ledger. Standing w ledger user key)
  found-Standing w x distinct h =
      let found = sym (get_committed-eq-find self user key w) ∙ h in
      let (on_ledger, rest) =
        both_true _ _ (find_holds (redeems self user key w) w.transactions x found) in
      let (entry, state) = both_true _ _ rest in
      let (of_user, of_key) = both_true _ _ entry in
      let (committed, unreversed) = both_true _ _ state in
      (
        x.ledger_uuid,
        opt_eq-some self.ledger x.ledger_uuid on_ledger,
        record {
          transaction = x;
          stored =
              All-find (λ (t : Transaction). row t.uuid w ≡ some t) (redeems self user key w)
                w.transactions x (rows_found (λ (t : Transaction). t.uuid) w.transactions distinct)
                found;
          committed = is_committed_only x.state committed;
          unreversed = not-true (is_reversed w.reversals x) unreversed;
          entry = record {
            ledger_is = refl;
            learner_is = opt_eq-some x.lms_user_id user of_user;
            content_is = opt_str_eq-some x.content_key key of_key;
          };
        },
      )

  none_stands :
      (w : World)
      → get_committed_transaction_no_reversal self user key w ≡ none
      → (ledger : ℕ) → self.ledger ≡ some ledger
      → ¬ Standing w ledger user key
  none_stands w h ledger on_ledger s =
      let holds =
        redeems_of_fields self user key w s.transaction ledger on_ledger s.entry.ledger_is
          s.entry.learner_is s.entry.content_is s.committed s.unreversed in
      let (x, found) =
        found_of_row self user key s.transaction.uuid s.transaction w s.stored holds in
      none_is_not_some x (sym h ∙ found)

  module _ (env : Env) (policy : ℕ) (idempotency_key : Option String) (requested : Option ℤ)
      (metadata : Option Metadata) (w : World) (promise : GetsOrCreates env)
      (keys : KeysOf env self user key idempotency_key w)
      (distinct : IsDistinct (λ (t : Transaction). t.uuid) w.transactions) where
    redeem_of_none :
        get_committed_transaction_no_reversal self user key w ≡ none
        → redeem env self user key policy idempotency_key requested metadata w
          ≡ redeem_new env self user key policy idempotency_key requested metadata w
    unfolding redeem
    redeem_of_none h = rw (h, redeem) refl

    redeem_by :
        (o : Option Transaction)
        → get_committed_transaction_no_reversal self user key w ≡ o
        → Steps w (redeem env self user key policy idempotency_key requested metadata w)
    redeem_by none e = subst (Steps w) (sym (redeem_of_none e)) (
        Steps-of w (redeem_new env self user key policy idempotency_key requested metadata w) (
          redeem_new-New env promise policy idempotency_key requested metadata w
            (distinct, keys, none_stands w e)))
    redeem_by (some x) e =
        subst (Steps w)
          (sym (redeem_of_found env self user key policy idempotency_key requested metadata w x e))
          (refl, found-Standing w x distinct e)

    -- `redeem` implements the abstract machine that only knows which learner has which content from
    -- which ledger, whatever the other services answer: a new transaction adds the entry that was asked
    -- for, and no other; a transaction that is returned as not created says that this entry stands, and
    -- nothing has changed; a refusal and an exception leave the entries that stand as they are. For a
    -- ledger that creates a transaction or gets the one with the same ledger and idempotency key, a key
    -- that no reversed transaction of this ledger and no transaction for another learner or content
    -- has, and a table of transactions without duplicate keys.
    pub redeem-Steps :
        Steps w (redeem env self user key policy idempotency_key requested metadata w)
    redeem-Steps = redeem_by (get_committed_transaction_no_reversal self user key w) refl
