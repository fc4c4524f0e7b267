-- ===== src/Api/Redeemable.antt =====
-- `can_redeem` and the transactions that a learner has already.
use edx_enterprise_subsidy.Common.{
  ℕ, ◌≡◌, refl, ap, sym, ◌∙◌, String, Bool, true, false, not, ◌&&◌, Option, none, some, List, [],
  find-none, All,
}
use edx_enterprise_subsidy.Schema.Ledger.{Transaction, is_committed}
use edx_enterprise_subsidy.Schema.Subsidy.{Subsidy}
use edx_enterprise_subsidy.Service.{Env, World, Result, ok, err, pure}
use edx_enterprise_subsidy.Service.Quiet.{Quiet, quiet_rules, SameTables}
use mathlib.Core.Path.{subst}
use edx_enterprise_subsidy.Service.Inversion.{bind-ok}
use edx_enterprise_subsidy.Subsidy.{
  is_reversed, price_for_content, get_committed_transaction_no_reversal,
  transactions_for_learner_and_content, all_transactions,
}
use edx_enterprise_subsidy.Subsidy.Quiet.{is_redeemable-Quiet, price_for_content-Quiet}
use edx_enterprise_subsidy.Api.{is_active, price_if_redeemable, can_redeem}

-- a redemption that stands: committed and not reversed
abbrev pub stands : World → Transaction → Bool
stands w t = is_committed t.state && not (is_reversed w.reversals t)

module _ (env : Env) (subsidy : Subsidy) (lms_user_id : ℕ) (content_key : String) where
  price_if_redeemable-Quiet :
      (existing : Option Transaction) → Quiet (price_if_redeemable env subsidy content_key existing)
  price_if_redeemable-Quiet none = is_redeemable-Quiet env subsidy content_key none
  price_if_redeemable-Quiet (some t) = search (quiet_rules, price_for_content-Quiet)

  same_rows :
      (w v : World)
      → v.transactions ≡ w.transactions
      → transactions_for_learner_and_content subsidy lms_user_id content_key v
        ≡ transactions_for_learner_and_content subsidy lms_user_id content_key w
  unfolding transactions_for_learner_and_content all_transactions
  same_rows w v h = rw h

  not_existing :
      (existing : Option Transaction) (w v : World) (price : ℕ)
      → price_if_redeemable env subsidy content_key existing w ≡ (ok (true, price), v)
      → existing ≡ none
  not_existing none w v price h = refl
  not_existing (some t) w v price h =
      let (p, u, e, k) =
        bind-ok (price_for_content env subsidy content_key) (λ p. pure {A = Bool × ℕ} (false, p)) w
          h in
      cc

  nothing_stands :
      (w : World)
      → get_committed_transaction_no_reversal subsidy lms_user_id content_key w ≡ none
      → All
          (λ t. stands w t ≡ false)
          (transactions_for_learner_and_content subsidy lms_user_id content_key w)
  unfolding get_committed_transaction_no_reversal
  nothing_stands w h =
      find-none (stands w) (transactions_for_learner_and_content subsidy lms_user_id content_key w)
        h

  abbrev Answer : Type 0
  Answer = Bool × Bool × ℕ × List Transaction

  abbrev ok_part : Result Answer → Answer
  ok_part (ok a) = a
  ok_part (err e) = (false, false, 0, [])

  ended :
      (w v u w' : World) (redeemable active : Bool) (p price : ℕ) (listed : List Transaction)
      (is_on : Bool) (existing : Option Transaction)
      → w ≡ v
      → price_if_redeemable env subsidy content_key existing v ≡ (ok (redeemable, p), u)
      → pure {A = Answer}
          (
            redeemable,
            is_on,
            p,
            transactions_for_learner_and_content subsidy lms_user_id content_key u,
          )
          u
        ≡ (ok (true, active, price, listed), w')
      → (listed ≡ transactions_for_learner_and_content subsidy lms_user_id content_key w)
        × (existing ≡ none)
  ended w v u w' redeemable active p price listed is_on existing same priced k =
      let is_true = ap (λ x. (ok_part x.0).0) k in
      let rows =
        ap (λ x. x.1.transactions) (sym priced)
        ∙ ((price_if_redeemable-Quiet existing).at v).transactions
        ∙ ap (λ x. x.transactions) (sym same) in
      (
        sym (ap (λ x. (ok_part x.0).3) k) ∙ same_rows w u rows,
        not_existing existing v u p (priced ∙ ap (λ b. (ok (b, p), u)) is_true),
      )

  -- If `can_redeem` answers that the learner can redeem, none of the transactions that it lists is a
  -- redemption that stands; the list is the one of the ledger; and no table is written, and no event
  -- emitted.
  pub can_redeem_none_stands :
      (w w' : World) (active : Bool) (price : ℕ) (listed : List Transaction)
      → can_redeem env subsidy lms_user_id content_key w ≡ (ok (true, active, price, listed), w')
      → All (λ t. stands w t ≡ false) listed
        × (listed ≡ transactions_for_learner_and_content subsidy lms_user_id content_key w)
        × SameTables w w'
  unfolding can_redeem
  can_redeem_none_stands w w' active price listed h =
      let existing = get_committed_transaction_no_reversal subsidy lms_user_id content_key w in
      let (is_on, v, e, k) = bind-ok (λ v. (is_active subsidy (env.now v), v)) _ w h in
      let ((redeemable, p), u, e', k') =
        bind-ok (price_if_redeemable env subsidy content_key existing) _ v k in
      let (listing, none_before) =
        ended w v u w' redeemable active p price listed is_on existing (ap (λ x. x.1) e) e' k' in
      (
        coe 0 1 (i. All (λ t. stands w t ≡ false) (sym listing i)) (nothing_stands w none_before),
        listing,
        subst (λ x. SameTables x w') (sym (ap (λ x. x.1) e))
            (subst (SameTables v) (ap (λ x. x.1) e' ∙ ap (λ x. x.1) k')
              ((price_if_redeemable-Quiet existing).at v)),
      )
