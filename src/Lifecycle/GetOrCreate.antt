-- ===== src/Lifecycle/GetOrCreate.antt =====
-- get_or_create_learner_credit_subsidy, twice.
use text.Mathlib.TextPositions.{eq_refl}
use edx_enterprise_subsidy.Common.{
  ℕ, ◌≡◌, refl, ◌∙◌, sym, ap, String, Bool, true, false, Option, none, some, List, [], ◌∷◌, arith,
  save_row, filter,
}
use edx_enterprise_subsidy.Schema.Ledger.{Deposit, Transaction}
use edx_enterprise_subsidy.Schema.Subsidy.{Subsidy}
use edx_enterprise_subsidy.Service.{World, Result, ok, err, pure}
use edx_enterprise_subsidy.Service.Inversion.{bind-ok}
use edx_enterprise_subsidy.ContentMetadata.{same_text}
use edx_enterprise_subsidy.Lifecycle.{
  clean, subsidy_pre_save, save_subsidy, only_or_create, has_reference,
  get_or_create_learner_credit_subsidy,
}
use edx_enterprise_subsidy.Lifecycle.Unique.{pre_save_kept, pre_save_same}

filter-save_row :
    {A : Type 0} (key : A → ℕ) (p : A → Bool) (a : A) (rows : List A)
    → filter p rows ≡ []
    → p a ≡ true
    → filter p (save_row key a rows) ≡ a ∷ []
unfolding save_row
filter-save_row key p a [] h pa = ground arith
filter-save_row key p a (x ∷ rows) h pa = ground (arith, filter-save_row key p a rows)

same_text_refl : (s : Option String) → same_text s s ≡ true
same_text_refl none = refl
same_text_refl (some s) = eq_refl s

module _ (create_ledger : Subsidy → World → Result (ℕ × List Transaction × List Deposit)) where
  clean_kept : (self : Subsidy) (w : World) → (clean create_ledger self w).1 ≡ w
  unfolding clean
  clean_kept self w = refl

  abbrev row_of : Subsidy → Result Subsidy → Subsidy
  row_of default (ok s) = s
  row_of default (err e) = default

  -- the row that a save has put into the table
  saved_row :
      (adding : Bool) (self : Subsidy) (w w' : World) (s : Subsidy)
      → save_subsidy create_ledger adding self w ≡ (ok s, w')
      → (w'.subsidies ≡ save_row (λ x. x.uuid) s w.subsidies)
        × (has_reference create_ledger self.reference_id s
            ≡ has_reference create_ledger self.reference_id self)
  unfolding save_subsidy
  saved_row adding self w w' s h =
      let (_, v, e, k) = bind-ok (clean create_ledger self) _ w h in
      let (saved, v', e', k') = bind-ok (subsidy_pre_save create_ledger adding self) _ v k in
      let same = ap (λ x. row_of saved x.0) k' in
      let rows =
        sym (ap (λ x. x.1.subsidies) e')
        ∙ pre_save_kept create_ledger adding self v
        ∙ sym (ap (λ x. x.1.subsidies) e)
        ∙ ap (λ x. x.subsidies) (clean_kept self w) in
      (
        sym (ap (λ x. x.1.subsidies) k')
            ∙ (λ i. save_row (λ (x : Subsidy). x.uuid) (same i) (rows i)),
        sym (ap (has_reference create_ledger self.reference_id) same)
            ∙ pre_save_same create_ledger (has_reference create_ledger self.reference_id) adding
                self v saved (λ ledger. refl) (ap (λ x. x.0) e'),
      )

  found_again :
      (new : Subsidy) (w : World) (s : Subsidy)
      → filter (has_reference create_ledger new.reference_id) w.subsidies ≡ s ∷ []
      → new.internal_only ≡ false
      → get_or_create_learner_credit_subsidy create_ledger new w ≡ (ok (s, false), w)
  unfolding get_or_create_learner_credit_subsidy
  found_again new w s h external = rw (external, h) refl

  not_internal :
      (new : Subsidy) (w : World)
      → new.internal_only ≡ false
      → get_or_create_learner_credit_subsidy create_ledger new w
        ≡ only_or_create create_ledger new
            (filter (has_reference create_ledger new.reference_id) w.subsidies)
            w
  unfolding get_or_create_learner_credit_subsidy
  not_internal new w h = rw h refl

  finds_itself :
      (new : Subsidy)
      → new.is_soft_deleted ≡ false
      → has_reference create_ledger new.reference_id new ≡ true
  finds_itself new alive = ground (arith, same_text_refl new.reference_id)

  abbrev subsidy_of : Subsidy → Result (Subsidy × Bool) → Subsidy
  subsidy_of default (ok (s, is_new)) = s
  subsidy_of default (err e) = default

  created_only :
      (new : Subsidy) (existing : List Subsidy) (w w' : World) (s : Subsidy)
      → filter (has_reference create_ledger new.reference_id) w.subsidies ≡ existing
      → new.is_soft_deleted ≡ false
      → only_or_create create_ledger new existing w ≡ (ok (s, true), w')
      → filter (has_reference create_ledger new.reference_id) w'.subsidies ≡ s ∷ []
  created_only new [] w w' s none_before alive h =
      let (saved, v, e, k) =
        bind-ok (save_subsidy create_ledger true new) (λ x. pure {A = Subsidy × Bool} (x, true)) w
          h in
      let (rows, reference) = saved_row true new w v saved e in
      let p = has_reference create_ledger new.reference_id in
      sym (ap (λ x. filter p x.1.subsidies) k)
      ∙ ap (filter p) rows
      ∙ filter-save_row (λ x. x.uuid) p saved w.subsidies none_before
          (reference ∙ finds_itself new alive)
      ∙ ap (λ x. subsidy_of saved x.0 ∷ []) k
  created_only new (x ∷ []) w w' s before alive h = cc
  created_only new (x ∷ y ∷ rest) w w' s before alive h = cc

  -- After a call for a subsidy that is not internal has created a row, a further call with the same
  -- reference id, whatever its defaults, returns that row as not created and changes nothing.
  pub get_or_create_again :
      (new new' : Subsidy) (w w' : World) (s : Subsidy)
      → new.internal_only ≡ false
      → new'.internal_only ≡ false
      → new.is_soft_deleted ≡ false
      → new'.reference_id ≡ new.reference_id
      → get_or_create_learner_credit_subsidy create_ledger new w ≡ (ok (s, true), w')
      → get_or_create_learner_credit_subsidy create_ledger new' w' ≡ (ok (s, false), w')
  unfolding get_or_create_learner_credit_subsidy
  get_or_create_again new new' w w' s external external' alive same h =
      found_again new' w' s
        (ap (λ r. filter (has_reference create_ledger r) w'.subsidies) same
          ∙ created_only new (filter (has_reference create_ledger new.reference_id) w.subsidies) w
              w' s refl alive (sym (not_internal new w external) ∙ h))
        external'
