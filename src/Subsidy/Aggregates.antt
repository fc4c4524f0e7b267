-- ===== src/Subsidy/Aggregates.antt =====
-- The totals of aggregated_enrollments_from_transactions.
use edx_enterprise_subsidy.Common.{
  ℕ, ◌+◌, ◌≡◌, ◌≢◌, refl, ◌∙◌, ap, Bool, not, ◌&&◌, Option, none, some, List, [], ◌∷◌, ◌==◌,
  if◌then◌else◌, filter, length, is_some, opt_eq, arith, All, Bool-cases, inl, inr,
}
use edx_enterprise_subsidy.Schema.Ledger.{Transaction, is_committed}
use edx_enterprise_subsidy.Schema.Subsidy.{Subsidy}
use edx_enterprise_subsidy.Service.{World}
use edx_enterprise_subsidy.Batches.Sorted.{IsDistinct}
use edx_enterprise_subsidy.Subsidy.{
  bump, content_count, count_for, totals, of_policy, is_reversed, all_transactions,
  aggregated_enrollments_from_transactions,
}

-- the total of a learner, 0 for one without a group
abbrev pub total_of : ℕ → List (ℕ × ℕ) → ℕ
total_of u [] = 0
total_of u ((v, n) ∷ groups) = let rest = total_of u groups in if v == u then n else rest

total_of-bump :
    (u v n : ℕ) (groups : List (ℕ × ℕ))
    → total_of u (bump v n groups) ≡ total_of u groups + (if v == u then n else 0)
total_of-bump u v n [] = ground arith
total_of-bump u v n ((x, m) ∷ groups) = ground (arith, total_of-bump u v n groups)

abbrev pub learner : ℕ × ℕ → ℕ
learner group = group.0

bump_apart :
    (u v n : ℕ) (groups : List (ℕ × ℕ))
    → u ≢ v
    → All (λ g. u ≢ learner g) groups
    → All (λ g. u ≢ learner g) (bump v n groups)
bump_apart u v n [] ne h = (ne, tt)
bump_apart u v n ((x, m) ∷ groups) ne (nx, h) = elim (Bool-cases (x == v)) [
  | inl t ↦ rw t (nx, h)
  | inr f ↦ rw f (nx, bump_apart u v n groups ne h)
]

bump-IsDistinct :
    (v n : ℕ) (groups : List (ℕ × ℕ))
    → IsDistinct learner groups
    → IsDistinct learner (bump v n groups)
bump-IsDistinct v n [] h = (tt, tt)
bump-IsDistinct v n ((x, m) ∷ groups) (ne, h) = elim (Bool-cases (x == v)) [
  | inl t ↦ rw t (ne, h)
  | inr f ↦ rw f (bump_apart x v n groups (ground (arith, f)) ne, bump-IsDistinct v n groups h)
]

count_for-IsDistinct :
    (o : Option ℕ) (t : Transaction) (groups : List (ℕ × ℕ))
    → IsDistinct learner groups
    → IsDistinct learner (count_for o t groups)
count_for-IsDistinct none t groups h = h
count_for-IsDistinct (some v) t groups h = bump-IsDistinct v (content_count t) groups h

totals-IsDistinct : (ts : List Transaction) → IsDistinct learner (totals ts)
unfolding totals
totals-IsDistinct [] = tt
totals-IsDistinct (t ∷ ts) = count_for-IsDistinct t.lms_user_id t (totals ts) (totals-IsDistinct ts)

counted_for :
    (u : ℕ) (t : Transaction) (o : Option ℕ) (groups : List (ℕ × ℕ))
    → total_of u (count_for o t groups)
      ≡ total_of u groups + (if opt_eq o u && is_some t.content_key then 1 else 0)
counted_for u t none groups = omega arith
counted_for u t (some v) groups = ground (arith, total_of-bump u v (content_count t) groups)

total_of-totals :
    (u : ℕ) (ts : List Transaction)
    → total_of u (totals ts)
      ≡ length (filter (λ t. opt_eq t.lms_user_id u && is_some t.content_key) ts)
unfolding totals
total_of-totals u [] = refl
total_of-totals u (t ∷ ts) =
    let one = counted_for u t t.lms_user_id (totals ts) in
    let ih = total_of-totals u ts in ground (arith, one, ih)

-- an enrollment of learner `u` with content: a committed transaction without a reversal, under the
-- policy if one is asked for
abbrev pub counts_for : Option ℕ → World → ℕ → Transaction → Bool
counts_for policy w u t =
    not (is_reversed w.reversals t)
    && (is_committed t.state
        && (of_policy policy t && (opt_eq t.lms_user_id u && is_some t.content_key)))

three_filters :
    (p q r s : Transaction → Bool)
    → ((t : Transaction) → (r t && (q t && p t)) ≡ s t)
    → (ts : List Transaction) → filter p (filter q (filter r ts)) ≡ filter s ts
three_filters p q r s h [] = refl
three_filters p q r s h (t ∷ ts) = ground (arith, h t, three_filters p q r s h ts)

same_test :
    (a b c d : Bool) (o : Option ℕ) (u : ℕ)
    → ((a && (b && is_some o)) && (c && (opt_eq o u && d))) ≡ (a && (b && (c && (opt_eq o u && d))))
same_test a b c d none u = ground arith
same_test a b c d (some v) u = ground arith

module _ (self : Subsidy) (policy : Option ℕ) (w : World) where
  -- The aggregates have one group for each learner at most, and the total of every learner, 0 without a
  -- group, is the number of the learner's transactions in the subsidy's ledger that are committed,
  -- not reversed, have a content key and, if a policy is asked for, are made under it.
  pub aggregated_enrollments_from_transactions_lem :
      IsDistinct learner (aggregated_enrollments_from_transactions self policy w)
      × ((u : ℕ)
          → total_of u (aggregated_enrollments_from_transactions self policy w)
            ≡ length (filter (counts_for policy w u) (all_transactions self w)))
  unfolding aggregated_enrollments_from_transactions
  aggregated_enrollments_from_transactions_lem =
      let standing = λ (t : Transaction).
        not (is_reversed w.reversals t) && (is_committed t.state && is_some t.lms_user_id) in
      let rows = filter (of_policy policy) (filter standing (all_transactions self w)) in
      (
        totals-IsDistinct rows,
        λ u.
            total_of-totals u rows
            ∙ ap length (
                three_filters (λ t. opt_eq t.lms_user_id u && is_some t.content_key)
                  (of_policy policy) standing (counts_for policy w u)
                  (λ t.
                    same_test (not (is_reversed w.reversals t)) (is_committed t.state)
                      (of_policy policy t) (is_some t.content_key) t.lms_user_id u)
                  (all_transactions self w)),
      )
