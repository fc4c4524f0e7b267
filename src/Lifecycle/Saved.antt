-- ===== src/Lifecycle/Saved.antt =====
-- What a save of a subsidy, and a call of get_or_create_learner_credit_subsidy, has written.
use edx_enterprise_subsidy.Common.{
  ℕ, ◌≡◌, refl, Bool, true, false, not, ◌&&◌, ◌||◌, List, [], ◌∷◌, find, filter, if◌then◌else◌,
  save_row, is_some, Bool-cases, inl, inr, arith,
}
use edx_enterprise_subsidy.Schema.Ledger.{Deposit, Transaction}
use edx_enterprise_subsidy.Schema.Subsidy.{Subsidy}
use edx_enterprise_subsidy.Service.{
  World, Result, ok, err, Exec, pure, modify, proceed, ◌>>=◌, ◌>>◌,
}
use edx_enterprise_subsidy.Lifecycle.{
  same_reference, clean, with_ledger, subsidy_pre_save, save_subsidy, only_or_create, has_reference,
  get_or_create_learner_credit_subsidy,
}

-- the row in the table is `self`, with a ledger if it is new; or nothing was written
abbrev pub Saved : Bool → Subsidy → World → Result Subsidy × World → Type 0
Saved adding self w (ok s, v) =
    (v.subsidies ≡ save_row (λ (x : Subsidy). x.uuid) s w.subsidies)
    × (s ≡ record self { ledger = s.ledger })
    × (adding ≡ true → is_some s.ledger ≡ true)
    × (adding ≡ false → (v.transactions ≡ w.transactions) × (s ≡ self))
    × (v.reversals ≡ w.reversals)
    × (v.events ≡ w.events)
Saved adding self w (err e, v) = v ≡ w

-- a row was created, or one was found, or nothing was done
abbrev pub GotOrCreated : Subsidy → World → Result (Subsidy × Bool) × World → Type 0
GotOrCreated new w (ok (s, true), v) = Saved true new w (ok s, v)
GotOrCreated new w (ok (s, false), v) = v ≡ w
GotOrCreated new w (err e, v) = v ≡ w

module _ (create_ledger : Subsidy → World → Result (ℕ × List Transaction × List Deposit)) where
  -- `save` past `clean`
  abbrev past_clean : Bool → Subsidy → Exec Subsidy
  past_clean adding self = subsidy_pre_save create_ledger adding self >>= λ saved.
      modify (λ w. record w { subsidies = save_row (λ s. s.uuid) saved w.subsidies }) >> pure saved

  new_ledger-Saved :
      (adding : Bool) (self : Subsidy) (w : World)
      (r : Result (ℕ × List Transaction × List Deposit))
      → not adding ≡ false
      → let (q, v) = with_ledger create_ledger self r w in
        Saved adding self w (
          proceed q
            (λ saved.
              modify (λ w. record w { subsidies = save_row (λ s. s.uuid) saved w.subsidies })
              >> pure saved)
            v)
  new_ledger-Saved true self w (ok (ledger, rows, deposits)) h =
      (refl, refl, λ _. refl, λ e. cc, refl, refl)
  new_ledger-Saved true self w (err e) h = refl
  new_ledger-Saved false self w r h = cc

  past_clean-Saved :
      (adding : Bool) (self : Subsidy) (w : World) → Saved adding self w (past_clean adding self w)
  unfolding subsidy_pre_save
  past_clean-Saved adding self w = elim (Bool-cases (is_some self.ledger || not adding)) [
    | inl e ↦ rw e (refl, refl, λ h. ground arith, λ h. (refl, refl), refl, refl)
    | inr e ↦ rw e (new_ledger-Saved adding self w (create_ledger self w) (ground arith))
  ]

  pub save_subsidy-Saved :
      (adding : Bool) (self : Subsidy) (w : World)
      → Saved adding self w (save_subsidy create_ledger adding self w)
  unfolding save_subsidy clean
  save_subsidy-Saved adding self w =
      elim (Bool-cases
        (not self.internal_only && is_some (find (same_reference self) w.subsidies))) [
          | inl e ↦ rw e refl
          | inr e ↦ rw e (past_clean-Saved adding self w)
        ]

  -- a row that is not new is saved, and nothing else is written
  abbrev pub Resaved : World → Result Subsidy × World → Type 0
  Resaved w (ok s, v) = v ≡ record w { subsidies = v.subsidies }
  Resaved w (err e, v) = v ≡ w

  past_clean-Resaved : (self : Subsidy) (w : World) → Resaved w (past_clean false self w)
  unfolding subsidy_pre_save
  past_clean-Resaved self w = elim (Bool-cases (is_some self.ledger || not false)) [
    | inl e ↦ rw e refl
    | inr e ↦ absurd (ground (arith, e))
  ]

  pub save_subsidy-Resaved :
      (self : Subsidy) (w : World) → Resaved w (save_subsidy create_ledger false self w)
  unfolding save_subsidy clean
  save_subsidy-Resaved self w =
      elim (Bool-cases
        (not self.internal_only && is_some (find (same_reference self) w.subsidies))) [
          | inl e ↦ rw e refl
          | inr e ↦ rw e (past_clean-Resaved self w)
        ]

  flagged_new :
      (new : Subsidy) (w : World) (r : Result Subsidy × World)
      → Saved true new w r
      → GotOrCreated new w (proceed r.0 (λ saved. pure {A = Subsidy × Bool} (saved, true)) r.1)
  flagged_new new w (ok s, v) h = h
  flagged_new new w (err e, v) h = h

  only_or_create-GotOrCreated :
      (new : Subsidy) (existing : List Subsidy) (w : World)
      → GotOrCreated new w (only_or_create create_ledger new existing w)
  only_or_create-GotOrCreated new [] w =
      flagged_new new w (save_subsidy create_ledger true new w) (save_subsidy-Saved true new w)
  only_or_create-GotOrCreated new (s ∷ []) w = refl
  only_or_create-GotOrCreated new (s ∷ t ∷ rest) w = refl

  if-GotOrCreated :
      (b : Bool) (new : Subsidy) (w : World) (m n : Exec (Subsidy × Bool))
      → GotOrCreated new w (m w)
      → GotOrCreated new w (n w)
      → GotOrCreated new w ((if b then m else n) w)
  if-GotOrCreated true new w m n h k = h
  if-GotOrCreated false new w m n h k = k

  pub get_or_create-GotOrCreated :
      (new : Subsidy) (w : World)
      → GotOrCreated new w (get_or_create_learner_credit_subsidy create_ledger new w)
  unfolding get_or_create_learner_credit_subsidy
  get_or_create-GotOrCreated new w =
      if-GotOrCreated new.internal_only new w _ _
        (flagged_new new w (save_subsidy create_ledger true new w) (save_subsidy-Saved true new w))
        (only_or_create-GotOrCreated new
          (filter (has_reference create_ledger new.reference_id) w.subsidies) w)
