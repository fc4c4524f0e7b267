-- ===== src/Batches/Relates.antt =====
-- What each body of a loop over batches does to the state, the loop does.
use edx_enterprise_subsidy.Common.{ℕ, zero, suc, Bool, Option, none, some, List, [], ◌∷◌, length}
use edx_enterprise_subsidy.Service.{World, Result, ok, err, Exec, proceed}
use edx_enterprise_subsidy.Batches.{
  for_each, last_pk, run_batch, batch_after, batch_by_pk, for_batches,
}

module _ (R : World → World → Type 0) (R_refl : (w : World) → R w w)
    (R_trans : (u v w : World) → R u v → R v w → R u w) where
  pub proceed-R :
      (r : Result (Unit {0})) (u v : World) (rest : Exec (Unit {0}))
      → R u v
      → R v (rest v).1
      → R u (proceed r (λ _. rest) v).1
  proceed-R (ok _) u v rest h k = R_trans u v (rest v).1 h k
  proceed-R (err e) u v rest h k = h

  module _ {A : Type 0} (body : A → Exec (Unit {0}))
      (step : (x : A) (w : World) → R w (body x w).1) where
    pub for_each-R : (xs : List A) (w : World) → R w (for_each body xs w).1
    unfolding for_each
    for_each-R [] w = R_refl w
    for_each-R (x ∷ xs) w =
        let (r, v) = body x w in proceed-R r w v (for_each body xs) (step x w) (for_each-R xs v)

    module _ (pk : A → ℕ) (table : World → List A) (extra_filter : A → Bool) where
      run_batch-R :
          (next : ℕ → Exec (Unit {0}))
          → ((last : ℕ) (w : World) → R w (next last w).1)
          → (batch : List A) (w : World) → R w (run_batch pk body next batch w).1
      run_batch-R next h [] w = R_refl w
      run_batch-R next h (x ∷ xs) w =
          let (r, v) = for_each body (x ∷ xs) w in
          let last = last_pk pk x xs in
          proceed-R r w v (next last) (for_each-R (x ∷ xs) w) (h last v)

      batch_by_pk-R :
          (fuel n : ℕ) (start_pk : Option ℕ) (w : World)
          → R w (batch_by_pk pk table extra_filter fuel n body start_pk w).1
      unfolding batch_by_pk
      batch_by_pk-R zero n start_pk w = R_refl w
      batch_by_pk-R (suc fuel) n start_pk w =
          run_batch-R (λ last. batch_by_pk pk table extra_filter fuel n body (some last))
            (λ last. batch_by_pk-R fuel n (some last))
            (batch_after pk table extra_filter n start_pk w) w

      pub for_batches-R : (n : ℕ) (w : World) → R w (for_batches pk table extra_filter n body w).1
      unfolding for_batches
      for_batches-R n w = batch_by_pk-R (suc (length (table w))) n none w
