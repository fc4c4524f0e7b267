-- ===== src/Subsidies/Destroyed.antt =====
-- A subsidy that was deleted by its endpoint.
use edx_enterprise_subsidy.Common.{
  ℕ, ◌≡◌, ◌≢◌, refl, ◌∙◌, sym, ap, String, Bool, true, false, ◌==◌, ==_iff, not, ◌&&◌, Option, none,
  some, List, [], ◌∷◌, All, find, find_row, save_row, find_row-save_row_self, find_row-save_row_ne,
  Bool-cases, inl, inr, arith,
}
use mathlib.Core.Path.{subst}
use edx_enterprise_subsidy.Schema.Ledger.{Deposit, Transaction}
use edx_enterprise_subsidy.Schema.Subsidy.{Subsidy}
use edx_enterprise_subsidy.Service.{Env, World, Result, ok}
use edx_enterprise_subsidy.Service.Inversion.{bind-ok}
use edx_enterprise_subsidy.Batches.Sorted.{IsDistinct}
use edx_enterprise_subsidy.Api.{active_subsidy}
use edx_enterprise_subsidy.Lifecycle.{save_subsidy, delete_subsidy}
use edx_enterprise_subsidy.Lifecycle.Saved.{
  Saved, save_subsidy-Saved, Resaved, save_subsidy-Resaved,
}
use edx_enterprise_subsidy.Subsidies.{SubsidyRequest, get_object}
use edx_enterprise_subsidy.Subsidies.Views.{SubsidyResponse, destroy}
use edx_enterprise_subsidy.Subsidies.Kept.{subsidy_uuid, subsidy_row}
use edx_enterprise_subsidy.Subsidies.Preserves.{SubsidiesOk, destroy-Preserves}

none_of :
    (k : ℕ) (p : Subsidy → Bool) (x : Subsidy) (rows : List Subsidy)
    → x.uuid ≡ k
    → All (λ (y : Subsidy). x.uuid ≢ y.uuid) rows
    → find (λ y. (y.uuid == k) && p y) rows ≡ none
none_of k p x [] e h = refl
none_of k p x (y ∷ rows) e (ne, h) = ground (arith, none_of k p x rows e h)

-- the row of a uuid is the only one that a query by this uuid can find
not_found_in :
    (k : ℕ) (p : Subsidy → Bool) (rows : List Subsidy) (s : Subsidy)
    → IsDistinct subsidy_uuid rows
    → find_row subsidy_uuid k rows ≡ some s
    → p s ≡ false
    → find (λ x. (x.uuid == k) && p x) rows ≡ none
unfolding find_row
not_found_in k p [] s distinct e h = refl
not_found_in k p (x ∷ rows) s (ne, distinct) e h = elim (Bool-cases (x.uuid == k)) [
  | inl t ↦
      let here : some x ≡ some s = ground (arith, e, t) in
      let none_left = none_of k p x rows ((==_iff x.uuid k).0 t) ne in
      ground (arith, t, here, h, none_left)
  | inr f ↦
      let ih = not_found_in k p rows s distinct (ground (arith, e, f)) h in ground (arith, f, ih)
]

-- what is left of a subsidy whose row was `s`
pub record Gone (s : Subsidy) (w v : World) : Type 0 where
  pub hidden : active_subsidy s.uuid v ≡ none
  pub row : subsidy_row s.uuid v ≡ some (record s { is_soft_deleted = true })
  pub others : (k : ℕ) → k ≢ s.uuid → subsidy_row k v ≡ subsidy_row k w
  pub elsewhere : v ≡ record w { subsidies = v.subsidies }

Saved-Gone :
    (s t : Subsidy) (w v : World)
    → SubsidiesOk w
    → Saved false (record s { is_soft_deleted = true }) w (ok t, v)
    → IsDistinct subsidy_uuid v.subsidies
    → v ≡ record w { subsidies = v.subsidies }
    → Gone s w v
Saved-Gone s t w v good saved distinct elsewhere =
    let gone = record s { is_soft_deleted = true } in
    let rows =
      subst (λ x. v.subsidies ≡ save_row subsidy_uuid x w.subsidies) (saved.3 refl).1 saved.0 in
    let here =
      ap (find_row subsidy_uuid s.uuid) rows
      ∙ find_row-save_row_self subsidy_uuid gone w.subsidies in
    record {
      hidden = not_found_in s.uuid (λ x. not x.is_soft_deleted) v.subsidies gone distinct here refl;
      row = here;
      others = λ k ne.
          ap (find_row subsidy_uuid k) rows
          ∙ find_row-save_row_ne subsidy_uuid k gone w.subsidies ne;
      elsewhere = elsewhere;
    }

module _ (env : Env)
    (create_ledger : Subsidy → World → Result (ℕ × List Transaction × List Deposit))
    (parse_uuid : String → Option ℕ) where
  -- A request to delete a subsidy that returns has found one row, the one of `get_object`, and flagged
  -- it: a lookup by its uuid among the subsidies that are not deleted finds nothing any more, while
  -- its row stays in the table, as it is but for the flag. The other rows of subsidies are the same,
  -- and nothing else is written, sent or emitted. For a table of subsidies without duplicate keys,
  -- with unique references, and with a ledger for each.
  pub destroy-Gone :
      (request : SubsidyRequest) (w v : World) (response : SubsidyResponse)
      → SubsidiesOk w
      → destroy env create_ledger parse_uuid request w ≡ (ok response, v)
      → (s : Subsidy) × ((get_object parse_uuid request w).0 ≡ ok s) × Gone s w v
  unfolding destroy get_object delete_subsidy
  destroy-Gone request w v response good h =
      let (s, w', found, k) = bind-ok (get_object parse_uuid request) _ w h in
      let same : w ≡ w' = ap (λ x. x.1) found in
      let gone = record s { is_soft_deleted = true } in
      let (t, u, saving, e) = bind-ok (save_subsidy create_ledger false gone) _ w' k in
      let saved =
        subst (Saved false gone w') saving (save_subsidy-Saved create_ledger false gone w') in
      let ok_after = destroy-Preserves create_ledger env parse_uuid request w good in
      (
        s,
        ap (λ x. x.0) found,
        Saved-Gone s t w v good
            (subst (λ x. Saved false gone w (ok t, x)) (ap (λ x. x.1) e)
              (subst (λ x. Saved false gone x (ok t, u)) (sym same) saved))
            (subst (λ (x : World). IsDistinct subsidy_uuid x.subsidies) (ap (λ x. x.1) h)
              ok_after.0.distinct)
            (subst (λ x. Resaved create_ledger w (ok t, x)) (ap (λ x. x.1) e)
              (subst (λ x. Resaved create_ledger x (ok t, u)) (sym same)
                (subst (Resaved create_ledger w') saving
                  (save_subsidy-Resaved create_ledger gone w')))),
      )
