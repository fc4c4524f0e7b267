-- ===== src/Batches/Sorted.antt =====
-- Rows ordered by their primary keys: filters commute with the order, and the rows past the last one
-- of a batch are the rest.
use edx_enterprise_subsidy.Common.{
  ℕ, zero, suc, ◌≤◌, ◌<◌, ◌≡◌, ◌≢◌, refl, ◌∙◌, ap, Bool, true, Option, none, some, List, [], ◌∷◌,
  All, All-map, All-filter_keep, filter, filter-All, length, take, drop, leb, ltb, arith,
  if◌then◌else◌, Bool-cases, inl, inr,
}
use edx_enterprise_subsidy.Batches.{insert_by_pk, order_by_pk, last_pk, past}

module _ {A : Type 0} (pk : A → ℕ) where
  abbrev pub IsSorted : List A → Type 0
  IsSorted [] = Unit
  IsSorted (x ∷ xs) = All (λ y. pk x < pk y) xs × IsSorted xs

  abbrev pub IsDistinct : List A → Type 0
  IsDistinct [] = Unit
  IsDistinct (x ∷ xs) = All (λ y. pk x ≢ pk y) xs × IsDistinct xs

  insert_by_pk-All :
      (P : A → Type 0) (x : A) (ys : List A) → P x → All P ys → All P (insert_by_pk pk x ys)
  unfolding insert_by_pk
  insert_by_pk-All P x [] px h = (px, tt)
  insert_by_pk-All P x (y ∷ ys) px (py, h) = ground (arith, insert_by_pk-All P x ys px h)

  pub order_by_pk-All : (P : A → Type 0) (xs : List A) → All P xs → All P (order_by_pk pk xs)
  unfolding order_by_pk
  order_by_pk-All P [] h = tt
  order_by_pk-All P (x ∷ xs) (px, h) =
      insert_by_pk-All P x (order_by_pk pk xs) px (order_by_pk-All P xs h)

  insert_by_pk-IsSorted :
      (x : A) (ys : List A)
      → All (λ y. pk x ≢ pk y) ys
      → IsSorted ys
      → IsSorted (insert_by_pk pk x ys)
  unfolding insert_by_pk
  insert_by_pk-IsSorted x [] h s = (tt, tt)
  insert_by_pk-IsSorted x (y ∷ ys) (ne, h) (above, s) = elim (Bool-cases (leb (pk x) (pk y))) [
    | inl le ↦ rw le (
      (ground arith, All-map (λ z. pk y < pk z) (λ z. pk x < pk z) ys (λ z k. ground arith) above),
      (above, s),
    )
    | inr gt ↦ rw gt (
      insert_by_pk-All (λ z. pk y < pk z) x ys (ground arith) above,
      insert_by_pk-IsSorted x ys h s,
    )
  ]

  pub order_by_pk-IsSorted : (xs : List A) → IsDistinct xs → IsSorted (order_by_pk pk xs)
  unfolding order_by_pk
  order_by_pk-IsSorted [] h = tt
  order_by_pk-IsSorted (x ∷ xs) (ne, h) =
      insert_by_pk-IsSorted x (order_by_pk pk xs) (order_by_pk-All (λ y. pk x ≢ pk y) xs ne)
        (order_by_pk-IsSorted xs h)

  insert_front : (x : A) (zs : List A) → All (λ z. pk x < pk z) zs → insert_by_pk pk x zs ≡ x ∷ zs
  unfolding insert_by_pk
  insert_front x [] h = refl
  insert_front x (z ∷ zs) (lt, h) = ground arith

  filter-insert_by_pk :
      (p : A → Bool) (x : A) (ys : List A)
      → All (λ y. pk x ≢ pk y) ys
      → IsSorted ys
      → filter p (insert_by_pk pk x ys)
        ≡ (if p x then insert_by_pk pk x (filter p ys) else filter p ys)
  unfolding insert_by_pk
  filter-insert_by_pk p x [] ne s = ground arith
  filter-insert_by_pk p x (y ∷ ys) (ne, nes) (above, s) = elim (Bool-cases (leb (pk x) (pk y))) [
    | inl le ↦
        let lt : pk x < pk y = ground arith in
        let front = insert_front x (filter p (y ∷ ys)) (
          All-filter_keep (λ z. pk x < pk z) p (y ∷ ys)
            (lt, All-map (λ z. pk y < pk z) (λ z. pk x < pk z) ys (λ z k. omega arith) above)) in
        rw (le, front) (ground arith)
    | inr gt ↦ let ih = filter-insert_by_pk p x ys nes s in rw gt (ground arith)
  ]

  pub filter-order_by_pk :
      (p : A → Bool) (xs : List A)
      → IsDistinct xs
      → filter p (order_by_pk pk xs) ≡ order_by_pk pk (filter p xs)
  unfolding order_by_pk
  filter-order_by_pk p [] h = refl
  filter-order_by_pk p (x ∷ xs) (ne, h) =
      let ih = filter-order_by_pk p xs h in
      filter-insert_by_pk p x (order_by_pk pk xs) (order_by_pk-All (λ y. pk x ≢ pk y) xs ne)
        (order_by_pk-IsSorted xs h)
      ∙ elim (Bool-cases (p x)) [ inl e ↦ rw (e, ih) refl | inr e ↦ rw (e, ih) refl ]

  pub filter-IsSorted : (p : A → Bool) (xs : List A) → IsSorted xs → IsSorted (filter p xs)
  filter-IsSorted p [] s = tt
  filter-IsSorted p (x ∷ xs) (above, s) =
      let kept = All-filter_keep (λ y. pk x < pk y) p xs above in
      let ih = filter-IsSorted p xs s in ground arith

  last_pk_above :
      (n : ℕ) (x : A) (xs : List A) → IsSorted (x ∷ xs) → pk x ≤ last_pk pk x (take n xs)
  last_pk_above zero x xs s = omega arith
  last_pk_above (suc n) x [] s = omega arith
  last_pk_above (suc n) x (y ∷ ys) ((lt, above), s) = let ih = last_pk_above n y ys s in omega arith

  -- the rows past a batch's last one are those that the batch has left
  pub past_last :
      (n : ℕ) (x : A) (xs : List A)
      → IsSorted (x ∷ xs)
      → filter (past pk (some (last_pk pk x (take n xs)))) (x ∷ xs) ≡ drop n xs
  past_last zero x xs (above, s) =
      let rest = filter-All (past pk (some (pk x))) xs (
        All-map (λ y. pk x < pk y) (λ y. ltb (pk x) (pk y) ≡ true) xs (λ y k. ground arith)
          above) in
      ground arith
  past_last (suc n) x [] s = ground arith
  past_last (suc n) x (y ∷ ys) ((lt, above), s) =
      let ih = past_last n y ys s in let le = last_pk_above n y ys s in ground arith

  -- a batch ends with its greatest key
  pub last_pk_max :
      (n : ℕ) (x : A) (xs : List A)
      → IsSorted (x ∷ xs)
      → All (λ y. pk y ≤ last_pk pk x (take n xs)) (x ∷ take n xs)
  last_pk_max zero x xs s = (omega arith, tt)
  last_pk_max (suc n) x [] s = (omega arith, tt)
  last_pk_max (suc n) x (y ∷ ys) (above, s) =
      (last_pk_above (suc n) x (y ∷ ys) (above, s), last_pk_max n y ys s)

  -- what lies past a row that a query has selected, the query selects too
  pub past_of_last :
      (start_pk : Option ℕ) (x : A) (l : ℕ)
      → past pk start_pk x ≡ true
      → pk x ≤ l
      → (y : A) → past pk (some l) y ≡ true
      → past pk start_pk y ≡ true
  past_of_last none x l h le y k = refl
  past_of_last (some s) x l h le y k = ground arith

  pub filter-IsDistinct : (p : A → Bool) (xs : List A) → IsDistinct xs → IsDistinct (filter p xs)
  filter-IsDistinct p [] h = tt
  filter-IsDistinct p (x ∷ xs) (ne, h) =
      let kept = All-filter_keep (λ y. pk x ≢ pk y) p xs ne in
      let ih = filter-IsDistinct p xs h in
      elim (Bool-cases (p x)) [ inl e ↦ rw e (kept, ih) | inr e ↦ rw e ih ]

  length-insert_by_pk : (x : A) (ys : List A) → length (insert_by_pk pk x ys) ≡ suc (length ys)
  unfolding insert_by_pk
  length-insert_by_pk x [] = refl
  length-insert_by_pk x (y ∷ ys) = ground (arith, length-insert_by_pk x ys)

  pub length-order_by_pk : (xs : List A) → length (order_by_pk pk xs) ≡ length xs
  unfolding order_by_pk
  length-order_by_pk [] = refl
  length-order_by_pk (x ∷ xs) =
      length-insert_by_pk x (order_by_pk pk xs) ∙ ap suc (length-order_by_pk xs)
