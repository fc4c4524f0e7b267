-- ===== src/Lifecycle.antt =====
-- How subsidies are created, saved and soft-deleted: `clean`, `save` and `delete` of
-- subsidy/models.py, the receiver in subsidy/signals.py, and get_or_create_learner_credit_subsidy of
-- subsidy/api.py. What Django's `full_clean` checks of the single fields is left out.
pub mod Unique
pub mod GetOrCreate
pub mod Saved
use edx_enterprise_subsidy.Common.{
  ℕ, String, Bool, true, false, not, ◌&&◌, ◌||◌, Option, none, some, List, [], ◌∷◌, ◌==◌,
  if◌then◌else◌, is_some, str_eq, filter, find, save_row,
}
use edx_enterprise_subsidy.Common.Int.{ℤ}
use edx_enterprise_subsidy.Schema.Ledger.{Deposit, Transaction}
use edx_enterprise_subsidy.Schema.Subsidy.{Subsidy, RevenueCategory}
use edx_enterprise_subsidy.Service.{
  World, Result, ok, err, Exec, Exception, pure, raise, gets, raise_if, proceed, ◌>>=◌, ◌>>◌,
  modify,
}
use edx_enterprise_subsidy.ContentMetadata.{same_text}

-- the query of `clean`; None is looked up as a null
abbrev pub same_reference : Subsidy → Subsidy → Bool
same_reference self other =
    not other.is_soft_deleted
    && (same_text other.reference_id self.reference_id
        && (str_eq other.reference_type self.reference_type && not (other.uuid == self.uuid)))

-- `create_ledger` of openedx_ledger: the new ledger, and the tables with its initial deposit and the
-- transaction of it. The row of the provider of the sales contract is left out.
module _ (create_ledger : Subsidy → World → Result (ℕ × List Transaction × List Deposit)) where
  unfoldable pub clean : Subsidy → Exec (Unit {0})
  clean self = do
    other_record ← gets (λ w. find (same_reference self) w.subsidies)
    raise_if (not self.internal_only && is_some other_record) Exception.validation

  abbrev pub with_ledger : Subsidy → Result (ℕ × List Transaction × List Deposit) → Exec Subsidy
  with_ledger self (ok (ledger, rows, deposits)) w = (
    ok (record self { ledger = some ledger }),
    record w { transactions = rows; deposits = deposits },
  )
  with_ledger self (err e) w = (err e, w)

  -- `adding` is `instance._state.adding`
  unfoldable pub subsidy_pre_save : Bool → Subsidy → Exec Subsidy
  subsidy_pre_save adding instance' w =
      if is_some instance'.ledger || not adding
      then (ok instance', w)
      else with_ledger instance' (create_ledger instance' w) w

  unfoldable pub save_subsidy : Bool → Subsidy → Exec Subsidy
  unfolding clean subsidy_pre_save
  save_subsidy adding self = do
    clean self
    saved ← subsidy_pre_save adding self
    modify (λ w. record w { subsidies = save_row (λ s. s.uuid) saved w.subsidies })
    pure saved

  unfoldable pub delete_subsidy : Subsidy → Exec Subsidy
  unfolding save_subsidy
  delete_subsidy self = save_subsidy false (record self { is_soft_deleted = true })

  -- `get_or_create` after its query
  abbrev pub only_or_create : Subsidy → List Subsidy → Exec (Subsidy × Bool)
  only_or_create new [] = do saved ← save_subsidy true new; pure (saved, true)
  only_or_create new (subsidy ∷ []) = pure (subsidy, false)
  only_or_create new (_ ∷ _ ∷ _) = raise Exception.multiple_objects_returned

  abbrev pub has_reference : Option String → Subsidy → Bool
  has_reference reference_id s = not s.is_soft_deleted && same_text s.reference_id reference_id

  -- `new` is the row with the reference and the defaults that are passed
  unfoldable pub get_or_create_learner_credit_subsidy : Subsidy → Exec (Subsidy × Bool)
  unfolding save_subsidy
  get_or_create_learner_credit_subsidy new =
      if new.internal_only then (do saved ← save_subsidy true new; pure (saved, true)) else (do
        existing ← gets (λ w. filter (has_reference new.reference_id) w.subsidies)
        only_or_create new existing)
