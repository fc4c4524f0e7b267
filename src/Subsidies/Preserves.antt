-- ===== src/Subsidies/Preserves.antt =====
-- Each request to an endpoint that writes subsidies preserves what holds of their table.
use edx_enterprise_subsidy.Common.{
  ℕ, ◌≡◌, refl, ◌∙◌, sym, ap, String, Bool, true, false, ◌==◌, Option, none, some, List, [], ◌∷◌,
  All, All-save_row, filter, find_row-eq-find, save_row, is_some, if◌then◌else◌,
}
use mathlib.Core.Path.{subst}
use edx_enterprise_subsidy.Schema.Ledger.{Deposit, Transaction}
use edx_enterprise_subsidy.Schema.Subsidy.{Subsidy}
use edx_enterprise_subsidy.Service.{
  Env, World, Result, ok, err, Exec, Exception, proceed, rescue, pure, ◌>>=◌,
}
use edx_enterprise_subsidy.Batches.Sorted.{IsDistinct}
use edx_enterprise_subsidy.Batches.Rows.{All-find, save_row-IsDistinct, rows_found}
use edx_enterprise_subsidy.Subsidy.{active_subsidies}
use edx_enterprise_subsidy.Lifecycle.{
  save_subsidy, delete_subsidy, only_or_create, has_reference, get_or_create_learner_credit_subsidy,
}
use edx_enterprise_subsidy.Lifecycle.Unique.{UniqueReferences, save_subsidy-UniqueReferences}
use edx_enterprise_subsidy.Lifecycle.Saved.{Saved, save_subsidy-Saved}
use edx_enterprise_subsidy.Subsidies.{SubsidyRequest, get_object, base_queryset, select, only_with}
use edx_enterprise_subsidy.Subsidies.Views.{
  CreationBody, SubsidyUpdate, new_subsidy, created_or_found, create, on_create_error, update,
  updated, destroy, subsidy_serializer,
}
use edx_enterprise_subsidy.Subsidies.Scope.{found_in}
use edx_enterprise_subsidy.Subsidies.Creation.{serializer_reads}
use edx_enterprise_subsidy.Subsidies.Kept.{
  subsidy_uuid, subsidy_row, Kept, Keeps, Keeps-refl, Keeps-trans, over-Keeps, new-Keeps,
}

-- what holds of the table of subsidies between two requests
pub record SubsidiesOk (w : World) : Type 0 where
  pub unique : UniqueReferences w.subsidies
  pub distinct : IsDistinct subsidy_uuid w.subsidies
  pub ledgers : All (λ s. is_some s.ledger ≡ true) w.subsidies

-- from a good state to a good state, in which every row is kept
abbrev pub Preserves : World → World → Type 0
Preserves w v = SubsidiesOk w → SubsidiesOk v × Keeps w v

pub Preserves-refl : (w : World) → Preserves w w
Preserves-refl w h = (h, Keeps-refl w)

pub Preserves-trans : (u v w : World) → Preserves u v → Preserves v w → Preserves u w
Preserves-trans u v w h k good =
    let (good', kept) = h good in
    let (good'', kept') = k good' in (good'', Keeps-trans u v w kept kept')

-- the state after a block, by how its first step ended
pub proceed_to :
    {A B : Type 0} (P : World → Type 0) (r : Result A) (f : A → Exec B) (v : World)
    → P v
    → ((a : A) → r ≡ ok a → P (f a v).1)
    → P (proceed r f v).1
proceed_to P (ok a) f v h k = k a refl
proceed_to P (err e) f v h k = h

rescue_to :
    {A : Type 0} (P : World → Type 0) (r : Result A) (f : Exception → Exec A) (v : World)
    → P v
    → ((e : Exception) → P (f e v).1)
    → P (rescue r f v).1
rescue_to P (ok a) f v h k = h
rescue_to P (err e) f v h k = k e

module _ (create_ledger : Subsidy → World → Result (ℕ × List Transaction × List Deposit)) where
  -- the parts of the invariant that a saved row decides
  stored_ok :
      (self s : Subsidy) (w v : World)
      → SubsidiesOk w
      → UniqueReferences v.subsidies
      → v.subsidies ≡ save_row subsidy_uuid s w.subsidies
      → is_some s.ledger ≡ true
      → SubsidiesOk v
  stored_ok self s w v good unique e l = record {
    unique = unique;
    distinct =
        subst (IsDistinct subsidy_uuid) (sym e)
          (save_row-IsDistinct subsidy_uuid s w.subsidies good.distinct);
    ledgers =
        subst (All (λ s. is_some s.ledger ≡ true)) (sym e)
          (All-save_row subsidy_uuid (λ s. is_some s.ledger ≡ true) s w.subsidies l good.ledgers);
  }

  overwritten :
      (s self : Subsidy) (w : World) (r : Result Subsidy × World)
      → SubsidiesOk w
      → subsidy_row s.uuid w ≡ some s
      → Kept s self
      → UniqueReferences r.1.subsidies
      → Saved false self w r
      → SubsidiesOk r.1 × Keeps w r.1
  overwritten s self w (err e, v) good found kept unique saved =
      subst (λ u. SubsidiesOk u × Keeps w u) (sym saved) (good, Keeps-refl w)
  overwritten s self w (ok t, v) good found kept unique saved =
      let rows =
        subst (λ x. v.subsidies ≡ save_row subsidy_uuid x w.subsidies) (saved.3 refl).1 saved.0 in
      let in_table = sym (find_row-eq-find subsidy_uuid s.uuid w.subsidies) ∙ found in
      let has_ledger =
        All-find (λ x. is_some x.ledger ≡ true) (λ x. x.uuid == s.uuid) w.subsidies s good.ledgers
          in_table in
      (
        stored_ok self self w v good unique rows (ap is_some kept.ledger ∙ has_ledger),
        over-Keeps s self w v found kept rows,
      )

  save-Preserves :
      (s self : Subsidy) (w : World)
      → subsidy_row s.uuid w ≡ some s
      → Kept s self
      → Preserves w (save_subsidy create_ledger false self w).1
  save-Preserves s self w found kept good =
      overwritten s self w (save_subsidy create_ledger false self w) good found kept
        (save_subsidy-UniqueReferences create_ledger false self w good.unique)
        (save_subsidy-Saved create_ledger false self w)

  inserted :
      (self : Subsidy) (w : World) (r : Result Subsidy × World)
      → SubsidiesOk w
      → subsidy_row self.uuid w ≡ none
      → UniqueReferences r.1.subsidies
      → Saved true self w r
      → SubsidiesOk r.1 × Keeps w r.1
  inserted self w (err e, v) good fresh unique saved =
      subst (λ u. SubsidiesOk u × Keeps w u) (sym saved) (good, Keeps-refl w)
  inserted self w (ok t, v) good fresh unique saved =
      let same : t.uuid ≡ self.uuid = ap subsidy_uuid saved.1 in
      (
        stored_ok self t w v good unique saved.0 (saved.2 refl),
        new-Keeps t w v (ap (λ k. subsidy_row k w) same ∙ fresh) saved.0,
      )

  insert-Preserves :
      (self : Subsidy) (w : World)
      → subsidy_row self.uuid w ≡ none
      → Preserves w (save_subsidy create_ledger true self w).1
  insert-Preserves self w fresh good =
      inserted self w (save_subsidy create_ledger true self w) good fresh
        (save_subsidy-UniqueReferences create_ledger true self w good.unique)
        (save_subsidy-Saved create_ledger true self w)

  either :
      {A : Type 0} (P : World → Type 0) (b : Bool) (m n : Exec A) (w : World)
      → P (m w).1
      → P (n w).1
      → P ((if b then m else n) w).1
  either P true m n w h k = h
  either P false m n w h k = k

  flagged-Preserves :
      (self : Subsidy) (w : World)
      → subsidy_row self.uuid w ≡ none
      → Preserves w
          ((save_subsidy create_ledger true self >>= λ saved.
              pure {A = Subsidy × Bool} (saved, true))
            w).1
  flagged-Preserves self w fresh =
      let (r, v) = save_subsidy create_ledger true self w in
      let h = insert-Preserves self w fresh in
      proceed_to (Preserves w) r (λ saved. pure {A = Subsidy × Bool} (saved, true)) v h (λ s e. h)

  only_or_create-Preserves :
      (new : Subsidy) (existing : List Subsidy) (w : World)
      → subsidy_row new.uuid w ≡ none
      → Preserves w (only_or_create create_ledger new existing w).1
  only_or_create-Preserves new [] w fresh = flagged-Preserves new w fresh
  only_or_create-Preserves new (s ∷ []) w fresh = Preserves-refl w
  only_or_create-Preserves new (s ∷ t ∷ rest) w fresh = Preserves-refl w

  get_or_create-Preserves :
      (new : Subsidy) (w : World)
      → subsidy_row new.uuid w ≡ none
      → Preserves w (get_or_create_learner_credit_subsidy create_ledger new w).1
  unfolding get_or_create_learner_credit_subsidy
  get_or_create-Preserves new w fresh =
      either (Preserves w) new.internal_only _ _ w (flagged-Preserves new w fresh) (
        only_or_create-Preserves new
          (filter (has_reference create_ledger new.reference_id) w.subsidies) w fresh)

  module _ (env : Env) where
    created_or_found-Preserves :
        (w : World) (s : Subsidy) (is_new : Bool) (v : World)
        → Preserves w v
        → Preserves w (created_or_found env create_ledger (s, is_new) v).1
    created_or_found-Preserves w s true v h =
        let (r, u) = subsidy_serializer env s v in
        let h' = subst (Preserves w) (sym (serializer_reads env s v)) h in
        proceed_to (Preserves w) r _ u h' (λ body e. h')
    created_or_found-Preserves w s false v h =
        let (r, u) = subsidy_serializer env s v in
        let h' = subst (Preserves w) (sym (serializer_reads env s v)) h in
        proceed_to (Preserves w) r _ u h' (λ body e. h')

    on_create_error-Preserves :
        (w v : World) (e : Exception) → Preserves w v → Preserves w (on_create_error e v).1
    on_create_error-Preserves w v Exception.multiple_objects_returned h = h
    on_create_error-Preserves w v _ h = h

    pub create-Preserves :
        (uuid : ℕ) (body : CreationBody) (w : World)
        → subsidy_row uuid w ≡ none
        → Preserves w (create env create_ledger uuid body w).1
    unfolding create
    create-Preserves uuid CreationBody.empty w fresh = Preserves-refl w
    create-Preserves uuid CreationBody.invalid w fresh = Preserves-refl w
    create-Preserves uuid (CreationBody.valid request) w fresh =
        let new = new_subsidy uuid request in
        let (r, v) = get_or_create_learner_credit_subsidy create_ledger new w in
        let (q, u) = proceed r (created_or_found env create_ledger) v in
        let got = get_or_create-Preserves new w fresh in
        let h =
          proceed_to (Preserves w) r (created_or_found env create_ledger) v got
            (λ (s, is_new) e. created_or_found-Preserves w s is_new v got) in
        rescue_to (Preserves w) q on_create_error u h (λ e. on_create_error-Preserves w u e h)

    module _ (parse_uuid : String → Option ℕ) where
      selected_in_table :
          (request : SubsidyRequest) (customer param : Result (Option ℕ)) (w : World) (s : Subsidy)
          → SubsidiesOk w
          → only_with request.uuid (select request customer param (active_subsidies w)) ≡ ok s
          → subsidy_row s.uuid w ≡ some s
      selected_in_table request (err e) param w s good h = cc
      selected_in_table request (ok c) (err e) w s good h = cc
      selected_in_table request (ok c) (ok p) w s good h =
          let (k, e, found) = found_in _ request.uuid w s h in
          All-find (λ x. subsidy_row x.uuid w ≡ some x) _ w.subsidies s
            (rows_found subsidy_uuid w.subsidies good.distinct) found

      pub in_table :
          (request : SubsidyRequest) (w : World) (s : Subsidy)
          → SubsidiesOk w
          → (get_object parse_uuid request w).0 ≡ ok s
          → subsidy_row s.uuid w ≡ some s
      unfolding get_object base_queryset
      in_table request w s good h = selected_in_table request _ _ w s good h

      updated-Kept : (body : SubsidyUpdate) (s : Subsidy) → Kept s (updated body s)
      unfolding updated
      updated-Kept body s = record {
        uuid = refl;
        ledger = refl;
        starting_balance = refl;
        deleted = λ h. h;
      }

      pub update-Preserves :
          (request : SubsidyRequest) (body : Result SubsidyUpdate) (w : World)
          → Preserves w (update env create_ledger parse_uuid request body w).1
      unfolding update get_object
      update-Preserves request body w good =
          proceed_to (λ v. SubsidiesOk v × Keeps w v) (get_object parse_uuid request w).0 _ w
            (good, Keeps-refl w)
            λ s found.
              proceed_to (λ v. SubsidiesOk v × Keeps w v) body _ w (good, Keeps-refl w)
                λ validated e.
                  let (r, v) = save_subsidy create_ledger false (updated validated s) w in
                  let h =
                    save-Preserves s (updated validated s) w (in_table request w s good found)
                      (updated-Kept validated s) good in
                  proceed_to (λ v. SubsidiesOk v × Keeps w v) r (subsidy_serializer env) v h
                    λ saved e'.
                      subst (λ v. SubsidiesOk v × Keeps w v) (sym (serializer_reads env saved v)) h

      pub destroy-Preserves :
          (request : SubsidyRequest) (w : World)
          → Preserves w (destroy env create_ledger parse_uuid request w).1
      unfolding destroy get_object delete_subsidy
      destroy-Preserves request w good =
          proceed_to (λ v. SubsidiesOk v × Keeps w v) (get_object parse_uuid request w).0 _ w
            (good, Keeps-refl w)
            λ s found.
              let gone = record s { is_soft_deleted = true } in
              let (r, v) = save_subsidy create_ledger false gone w in
              let h =
                save-Preserves s gone w (in_table request w s good found)
                  (record {
                    uuid = refl;
                    ledger = refl;
                    starting_balance = refl;
                    deleted = λ d. refl;
                  })
                  good in
              proceed_to (λ v. SubsidiesOk v × Keeps w v) r _ v h (λ saved e'. h)
