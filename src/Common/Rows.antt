-- ===== src/Common/Rows.antt =====
-- A table with a primary key: `get`, and Django's `save`, which overwrites the row of that key or
-- inserts a new one.
use edx_enterprise_subsidy.Common.Tests.{◌==◌, if◌then◌else◌}
use Prim.Native.Nat.{ℕ}
use edx_enterprise_subsidy.Common.Lists.{find, All}
use mathlib.Core.Path.{◌≡◌, refl}
use mathlib.Core.Logic.{◌≢◌}
use mathlib.Core.Option.{Option, none, some}
use mathlib.Core.List.{List, [], ◌∷◌}
use native.Mathlib.Omega.{arith}

module _ {ℓ} {A : Type ℓ} (key : A → ℕ) where
  unfoldable pub find_row : ℕ → List A → Option A
  find_row k [] = none
  find_row k (x ∷ xs) = let rest = find_row k xs in if key x == k then some x else rest

  unfoldable pub save_row : A → List A → List A
  save_row a [] = a ∷ []
  save_row a (x ∷ xs) = let rest = save_row a xs in if key x == key a then a ∷ xs else x ∷ rest

  pub find_row-save_row_self : (a : A) (xs : List A) → find_row (key a) (save_row a xs) ≡ some a
  unfolding find_row save_row
  find_row-save_row_self a [] = ground arith
  find_row-save_row_self a (x ∷ xs) = ground (arith, find_row-save_row_self a xs)

  pub find_row-save_row_ne :
      (k : ℕ) (a : A) (xs : List A) → k ≢ key a → find_row k (save_row a xs) ≡ find_row k xs
  unfolding find_row save_row
  find_row-save_row_ne k a [] h = ground arith
  find_row-save_row_ne k a (x ∷ xs) h = ground (arith, find_row-save_row_ne k a xs h)

  pub All-save_row {κ} :
      (P : A → Type κ) (a : A) (rows : List A) → P a → All P rows → All P (save_row a rows)
  unfolding save_row
  All-save_row P a [] pa h = (pa, tt)
  All-save_row P a (x ∷ rows) pa (px, h) = ground (arith, All-save_row P a rows pa h)

  pub find_row-eq-find : (k : ℕ) (xs : List A) → find_row k xs ≡ find (λ x. key x == k) xs
  unfolding find_row
  find_row-eq-find k [] = refl
  find_row-eq-find k (x ∷ xs) = ground (arith, find_row-eq-find k xs)

pub ruleset table_laws = (find_row-save_row_self, find_row-save_row_ne)
