-- ===== src/Batches/Complete.antt =====
-- Reading a query in batches: every selected row is handled, once and in the order of the keys.
use edx_enterprise_subsidy.Common.{
  ℕ, zero, suc, ◌≤◌, ◌<◌, ◌≡◌, refl, ◌∙◌, sym, ap, Bool, true, Option, none, some, List, [], ◌∷◌,
  ◌++◌, All, All-always, All-filter, filter, filter_comm, filter-filter_of, take, drop,
  take-append-drop, length-filter, length, arith,
}
use edx_enterprise_subsidy.Service.{World, Result, ok, err, Exec, proceed, ◌>>=◌, ◌>>◌}
use edx_enterprise_subsidy.Batches.{
  for_each, order_by_pk, last_pk, past, run_batch, selected, batch_after, batch_by_pk, for_batches,
}
use edx_enterprise_subsidy.Batches.Sorted.{
  IsSorted, IsDistinct, order_by_pk-IsSorted, filter-order_by_pk, past_last, last_pk_max,
  past_of_last, filter-IsDistinct, length-order_by_pk,
}

length-drop : {A : Type 0} (n : ℕ) (xs : List A) → length (drop n xs) ≤ length xs
length-drop zero xs = omega arith
length-drop (suc n) [] = omega arith
length-drop (suc n) (x ∷ xs) = let ih = length-drop n xs in omega arith

proceed_cong :
    {A B : Type 0} (r : Result A) (v : World) (f g : A → Exec B)
    → ((a : A) → f a v ≡ g a v)
    → proceed r f v ≡ proceed r g v
proceed_cong (ok a) v f g h = h a
proceed_cong (err e) v f g h = refl

proceed_assoc :
    {A B C : Type 0} (r : Result A) (v : World) (f : A → Exec B) (g : B → Exec C)
    → proceed (proceed r f v).0 g (proceed r f v).1 ≡ proceed r (λ a. f a >>= g) v
proceed_assoc (ok a) v f g = refl
proceed_assoc (err e) v f g = refl

module _ {A : Type 0} (pk : A → ℕ) (table : World → List A) (extra_filter : A → Bool)
    (body : A → Exec (Unit {0})) where
  -- what the body does for a row leaves the later rows of the query as they are
  abbrev pub KeepsLater : Type 0
  KeepsLater =
      (x : A) (w : World) (k : ℕ)
      → pk x ≤ k
      → selected pk table extra_filter (some k) (body x w).1
        ≡ selected pk table extra_filter (some k) w

  after_step :
      (k : ℕ) (r : Result (Unit {0})) (v w : World) (rest : Exec (Unit {0}))
      → selected pk table extra_filter (some k) v ≡ selected pk table extra_filter (some k) w
      → selected pk table extra_filter (some k) (rest v).1
        ≡ selected pk table extra_filter (some k) v
      → selected pk table extra_filter (some k) (proceed r (λ _. rest) v).1
        ≡ selected pk table extra_filter (some k) w
  after_step k (ok _) v w rest h h' = h' ∙ h
  after_step k (err e) v w rest h h' = h

  for_each-keeps :
      KeepsLater
      → (k : ℕ) (xs : List A) (w : World) → All (λ x. pk x ≤ k) xs
      → selected pk table extra_filter (some k) (for_each body xs w).1
        ≡ selected pk table extra_filter (some k) w
  unfolding for_each
  for_each-keeps keeps k [] w h = refl
  for_each-keeps keeps k (x ∷ xs) w (le, h) =
      let (r, v) = body x w in
      after_step k r v w (for_each body xs) (keeps x w k le) (for_each-keeps keeps k xs v h)

  for_each-append :
      (xs ys : List A) (w : World)
      → for_each body (xs ++ ys) w ≡ (for_each body xs >> for_each body ys) w
  unfolding for_each
  for_each-append [] ys w = refl
  for_each-append (x ∷ xs) ys w =
      let (r, v) = body x w in
      proceed_cong r v (λ _. for_each body (xs ++ ys)) (λ _. for_each body xs >> for_each body ys)
        (λ _. for_each-append xs ys v)
      ∙ sym (proceed_assoc r v (λ _. for_each body xs) (λ _. for_each body ys))

  -- the rows that a query orders
  abbrev rows : Option ℕ → World → List A
  rows start_pk w = order_by_pk pk (selected pk table extra_filter start_pk w)

  selected-past :
      (start_pk : Option ℕ) (x : A) (l : ℕ) (w : World)
      → past pk start_pk x ≡ true
      → pk x ≤ l
      → selected pk table extra_filter (some l) w
        ≡ filter (past pk (some l)) (selected pk table extra_filter start_pk w)
  selected-past start_pk x l w h le =
      sym (
        ap (filter extra_filter) (
          filter-filter_of (past pk (some l)) (past pk start_pk) (past_of_last pk start_pk x l h le)
            (table w)))
      ∙ filter_comm extra_filter (past pk (some l)) (filter (past pk start_pk) (table w))

  -- the query after a batch selects the rows that the batch has left
  rows_left :
      (n : ℕ) (start_pk : Option ℕ) (x : A) (xs : List A) (w : World)
      → IsDistinct pk (selected pk table extra_filter start_pk w)
      → rows start_pk w ≡ x ∷ xs
      → past pk start_pk x ≡ true
      → rows (some (last_pk pk x (take n xs))) w ≡ drop n xs
  rows_left n start_pk x xs w distinct e h =
      let l = last_pk pk x (take n xs) in
      let sorted =
        coe 0 1 (i. IsSorted pk (e i))
          (order_by_pk-IsSorted pk (selected pk table extra_filter start_pk w) distinct) in
      ap (order_by_pk pk) (selected-past start_pk x l w h (last_pk_max pk n x xs sorted).0)
      ∙ sym (
          filter-order_by_pk pk (past pk (some l)) (selected pk table extra_filter start_pk w)
            distinct)
      ∙ ap (filter (past pk (some l))) e
      ∙ past_last pk n x xs sorted

  loop :
      KeepsLater
      → (fuel n : ℕ) (start_pk : Option ℕ) (w : World) (left : List A)
      → IsDistinct pk (selected pk table extra_filter start_pk w)
      → rows start_pk w ≡ left
      → All (λ x. past pk start_pk x ≡ true) left
      → length left < fuel
      → batch_by_pk pk table extra_filter fuel (suc n) body start_pk w ≡ for_each body left w
  unfolding batch_by_pk batch_after
  loop keeps zero n start_pk w left distinct e h enough = absurd (omega arith)
  loop keeps (suc fuel) n start_pk w [] distinct e h enough =
      ap
        (λ read.
          run_batch pk body
            (λ last. batch_by_pk pk table extra_filter fuel (suc n) body (some last))
            (take (suc n) read) w)
        e
  loop keeps (suc fuel) n start_pk w (x ∷ xs) distinct e (px, h) enough =
      let l = last_pk pk x (take n xs) in
      let batch = x ∷ take n xs in
      let (r, v) = for_each body batch w in
      let sorted =
        coe 0 1 (i. IsSorted pk (e i))
          (order_by_pk-IsSorted pk (selected pk table extra_filter start_pk w) distinct) in
      let kept = for_each-keeps keeps l batch w (last_pk_max pk n x xs sorted) in
      let narrowed = selected-past start_pk x l w px (last_pk_max pk n x xs sorted).0 in
      let distinct' = coe 0 1 (i. IsDistinct pk (sym (kept ∙ narrowed) i)) (
        filter-IsDistinct pk (past pk (some l)) (selected pk table extra_filter start_pk w)
          distinct) in
      let e' = ap (order_by_pk pk) kept ∙ rows_left n start_pk x xs w distinct e px in
      let all_past =
        coe 0 1 (i. All (λ y. past pk (some l) y ≡ true) (past_last pk n x xs sorted i))
          (All-filter (past pk (some l)) (x ∷ xs)) in
      let short = length-drop n xs in
      let rest = loop keeps fuel n (some l) v (drop n xs) distinct' e' all_past (omega arith) in
      ap
        (λ read.
          run_batch pk body
            (λ last. batch_by_pk pk table extra_filter fuel (suc n) body (some last))
            (take (suc n) read) w)
        e
      ∙ proceed_cong r v (λ _. batch_by_pk pk table extra_filter fuel (suc n) body (some l))
          (λ _. for_each body (drop n xs)) (λ _. rest)
      ∙ sym (for_each-append batch (drop n xs) w)
      ∙ ap (λ all. for_each body (x ∷ all) w) (take-append-drop n xs)

  fuelled :
      (fuel n : ℕ) (w : World)
      → KeepsLater
      → IsDistinct pk (table w)
      → length (rows none w) < fuel
      → batch_by_pk pk table extra_filter fuel (suc n) body none w ≡ for_each body (rows none w) w
  fuelled fuel n w keeps distinct enough =
      loop keeps fuel n none w (rows none w)
        (filter-IsDistinct pk extra_filter (filter (past pk none) (table w))
          (filter-IsDistinct pk (past pk none) (table w) distinct))
        refl (All-always (λ x. past pk none x ≡ true) (rows none w) (λ x. refl)) enough

  -- Reading a query in batches of any positive size handles each of its rows once, in the order of
  -- the primary keys, as one loop over the whole query would: with the same writes, the same
  -- exception if the body raises, and an end of the loop once the rows are handled. For a table
  -- without duplicate keys, and a body that does not touch the later rows of the query.
  pub for_batches-for_each :
      (n : ℕ) (w : World)
      → KeepsLater
      → IsDistinct pk (table w)
      → for_batches pk table extra_filter (suc n) body w ≡ for_each body (rows none w) w
  unfolding for_batches
  for_batches-for_each n w keeps distinct =
      let short = length-order_by_pk pk (selected pk table extra_filter none w) in
      let fewer = length-filter extra_filter (filter (past pk none) (table w)) in
      let all = length-filter (past pk none) (table w) in
      fuelled (suc (length (table w))) n w keeps distinct (omega arith)
