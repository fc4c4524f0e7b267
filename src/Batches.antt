-- ===== src/Batches.antt =====
-- `batch_by_pk` of apps/transaction/utils.py, together with the loops of its callers over the batches
-- and over the rows of each. A slice of a query is read when the caller's loop starts on it, so that
-- what the caller writes is seen by the later queries only.
pub mod Sorted
pub mod Complete
pub mod Relates
pub mod Rows
use edx_enterprise_subsidy.Common.{
  ℕ, zero, suc, Bool, true, false, Option, none, some, List, [], ◌∷◌, if◌then◌else◌, leb, ltb,
  filter, length, take,
}
use edx_enterprise_subsidy.Service.{World, Exec, Exception, pure, raise, gets, proceed, ◌>>=◌, ◌>>◌}

-- `for item in items: body item`
unfoldable pub for_each {ℓ} : {A : Type ℓ} → (A → Exec (Unit {0})) → List A → Exec (Unit {0})
for_each body [] = pure tt
for_each body (x ∷ xs) = do body x; for_each body xs

module _ {A : Type 0} (pk : A → ℕ) where
  -- `order_by('pk')`
  unfoldable pub insert_by_pk : A → List A → List A
  insert_by_pk x [] = x ∷ []
  insert_by_pk x (y ∷ ys) =
      let rest = insert_by_pk x ys in if leb (pk x) (pk y) then x ∷ y ∷ ys else y ∷ rest

  unfoldable pub order_by_pk : List A → List A
  unfolding insert_by_pk
  order_by_pk [] = []
  order_by_pk (x ∷ xs) = insert_by_pk x (order_by_pk xs)

  -- the loop that leaves `start_pk` at the last row of the batch
  abbrev pub last_pk : A → List A → ℕ
  last_pk x [] = pk x
  last_pk x (y ∷ ys) = last_pk y ys

  -- one round of the loop, on the batch that its query has read
  abbrev pub run_batch : (A → Exec (Unit {0})) → (ℕ → Exec (Unit {0})) → List A → Exec (Unit {0})
  run_batch body next [] = pure tt
  run_batch body next (x ∷ xs) = do for_each body (x ∷ xs); next (last_pk x xs)

  -- `filter(pk__gt=start_pk)`; the first query has none
  abbrev pub past : Option ℕ → A → Bool
  past none x = true
  past (some start_pk) x = ltb start_pk (pk x)

  module _ (table : World → List A) (extra_filter : A → Bool) where
    -- the rows that a query selects, before they are ordered and cut
    abbrev pub selected : Option ℕ → World → List A
    selected start_pk w = filter extra_filter (filter (past start_pk) (table w))

    unfoldable pub batch_after : ℕ → Option ℕ → World → List A
    unfolding order_by_pk
    batch_after batch_size start_pk w = take batch_size (order_by_pk (selected start_pk w))

    -- `while qs.exists()`, on fuel; when the fuel runs out this is reported as an exception
    unfoldable pub batch_by_pk : ℕ → ℕ → (A → Exec (Unit {0})) → Option ℕ → Exec (Unit {0})
    unfolding for_each batch_after
    batch_by_pk zero batch_size body start_pk w = raise Exception.other w
    batch_by_pk (suc fuel) batch_size body start_pk w =
        run_batch body (λ last. batch_by_pk fuel batch_size body (some last))
          (batch_after batch_size start_pk w) w

    -- the loop with fuel for every row of the table, which is enough
    unfoldable pub for_batches : ℕ → (A → Exec (Unit {0})) → Exec (Unit {0})
    unfolding batch_by_pk
    for_batches batch_size body w = batch_by_pk (suc (length (table w))) batch_size body none w

-- the default `batch_size`
abbrev pub default_batch_size : ℕ
default_batch_size = 10000
