-- ===== src/Reversals/Again.antt =====
-- The revocation handler after a reversal: the loop of events between the services ends.
use edx_enterprise_subsidy.Common.{
  ℕ, ◌≡◌, refl, ◌∙◌, sym, Bool, true, false, ◌==◌, ==_iff, Option, none, some, List, ◌∷◌, arith,
  find_row, find_row-eq-find, find_holds,
}
use edx_enterprise_subsidy.Schema.Ledger.{Transaction, Reversal}
use edx_enterprise_subsidy.Schema.Catalog.{DateValue}
use edx_enterprise_subsidy.Schema.Remote.{Unenrollment}
use edx_enterprise_subsidy.Service.{Env, World, ok}
use edx_enterprise_subsidy.Subsidy.{is_reversed}
use edx_enterprise_subsidy.Unenrollment.{
  reversible, reverse_transaction, handle_lc_enrollment_revoked,
}
use edx_enterprise_subsidy.Reversals.{related_to}
use edx_enterprise_subsidy.Reversals.Grown.{WritesOne, reverse_transaction_writes}

module _ (env : Env) (contract : WritesOne env) where
  not_reversible :
      (t : Transaction) (s : Reversal) (before : List Reversal) (w' : World)
      (found : Option Transaction)
      → w'.reversals ≡ s ∷ before
      → s.transaction_uuid ≡ t.uuid
      → ((x : Transaction) → found ≡ some x → x.uuid ≡ t.uuid)
      → reversible w' found ≡ none
  not_reversible t s before w' none rows e same = refl
  not_reversible t s before w' (some x) rows e same =
      let at_x = same x refl in rw (rows) (ground arith)

  row_uuid :
      (u : ℕ) (w : World) (x : Transaction)
      → find_row (λ (t : Transaction). t.uuid) u w.transactions ≡ some x
      → x.uuid ≡ u
  row_uuid u w x h = (==_iff x.uuid u).0 (
      find_holds (λ (t : Transaction). t.uuid == u) w.transactions x
        (sym (find_row-eq-find (λ t. t.uuid) u w.transactions) ∙ h))

  -- After a reversal of a transaction has returned, a revocation event of that transaction, which the
  -- reversal itself causes in the enterprise service, is handled without any further write, event or
  -- request. For a ledger whose `reverse_full_transaction`, when it returns on a transaction without
  -- a reversal, has written one.
  pub handle_after_reversal :
      (t : Transaction) (time : Option DateValue) (w w' : World) (r : Reversal) (enabled : Bool)
      (revoked : Unenrollment)
      → is_reversed w.reversals t ≡ false
      → reverse_transaction env t time w ≡ (ok r, w')
      → revoked.transaction_id ≡ t.uuid
      → handle_lc_enrollment_revoked env enabled revoked w' ≡ (ok tt, w')
  unfolding handle_lc_enrollment_revoked
  handle_after_reversal t time w w' r false revoked fresh h of_t = refl
  handle_after_reversal t time w w' r true revoked fresh h of_t =
      let (s, rows, e) = reverse_transaction_writes env contract t time w w' r fresh h in
      rw
        (not_reversible t s w.reversals w' (related_to revoked w') rows e
          (λ x k. row_uuid revoked.transaction_id w' x k ∙ of_t))
        refl
