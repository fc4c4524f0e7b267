-- ===== src/Batches/Rows.antt =====
-- Saving and finding rows of a table without duplicate keys.
use edx_enterprise_subsidy.Common.{
  ℕ, ◌≤◌, ◌≡◌, ◌≢◌, ◌==◌, Bool, true, some, find, List, [], ◌∷◌, All, All-map, All-both,
  All-save_row, filter, find_row, save_row, arith, Bool-cases, inl, inr,
}
use mathlib.Core.Path.{subst}
use edx_enterprise_subsidy.Batches.{past}
use edx_enterprise_subsidy.Batches.Sorted.{IsDistinct}

module _ {A : Type 0} (key : A → ℕ) where
  pub filter-past-save_row :
      (k : ℕ) (a : A) (rows : List A)
      → key a ≤ k
      → filter (past key (some k)) (save_row key a rows) ≡ filter (past key (some k)) rows
  unfolding save_row
  filter-past-save_row k a [] h = ground arith
  filter-past-save_row k a (x ∷ rows) h = ground (arith, filter-past-save_row k a rows h)

  pub save_row-IsDistinct :
      (a : A) (rows : List A) → IsDistinct key rows → IsDistinct key (save_row key a rows)
  unfolding save_row
  save_row-IsDistinct a [] h = (tt, tt)
  save_row-IsDistinct a (x ∷ rows) (ne, h) = elim (Bool-cases (key x == key a)) [
    | inl e ↦
        rw e (All-map (λ y. key x ≢ key y) (λ y. key a ≢ key y) rows (λ y k. ground arith) ne, h)
    | inr e ↦ rw e (
      All-save_row key (λ y. key x ≢ key y) a rows (ground arith) ne,
      save_row-IsDistinct a rows h,
    )
  ]

  pub rows_found :
      (rows : List A) → IsDistinct key rows → All (λ x. find_row key (key x) rows ≡ some x) rows
  unfolding find_row
  rows_found [] h = tt
  rows_found (x ∷ rows) (ne, h) = (
    ground arith,
    All-map (λ y. (key x ≢ key y) × (find_row key (key y) rows ≡ some y))
        (λ y. find_row key (key y) (x ∷ rows) ≡ some y) rows (λ y k. ground arith)
        (All-both (λ y. key x ≢ key y) (λ y. find_row key (key y) rows ≡ some y) rows ne
          (rows_found rows h)),
  )

pub All-find :
    {A : Type 0} (P : A → Type 0) (p : A → Bool) (xs : List A) (x : A)
    → All P xs
    → find p xs ≡ some x
    → P x
All-find P p [] x h e = cc
All-find P p (y ∷ xs) x (py, h) e = elim (Bool-cases (p y)) [
  | inl t ↦ subst P (ground (arith, e, t)) py
  | inr f ↦ All-find P p xs x h (ground (arith, e, f))
]

-- two tests that only rows of one key pass find the same row of a table without duplicate keys
pub find_unique :
    {A : Type 0} (key : A → ℕ) (k : ℕ) (p q : A → Bool) (xs : List A) (x : A)
    → ((y : A) → p y ≡ true → key y ≡ k)
    → ((y : A) → q y ≡ true → key y ≡ k)
    → IsDistinct key xs
    → find p xs ≡ some x
    → q x ≡ true
    → find q xs ≡ some x
find_unique key k p q [] x hp hq distinct e h = cc
find_unique key k p q (y ∷ xs) x hp hq (ne, distinct) e h = elim (Bool-cases (p y)) [
  | inl t ↦ ground (arith, e, t, h)
  | inr f ↦
      let e' : find p xs ≡ some x = ground (arith, e, f) in
      let ih = find_unique key k p q xs x hp hq distinct e' h in
      let other = All-find (λ z. key y ≢ key z) p xs x ne e' in
      ground (arith, ih, hq y, hq x h, other)
]
