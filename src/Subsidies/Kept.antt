-- ===== src/Subsidies/Kept.antt =====
-- What the endpoints keep of the table of subsidies.
use edx_enterprise_subsidy.Common.{
  ℕ, ◌≡◌, ◌≢◌, refl, ◌∙◌, sym, ap, true, ◌==◌, ==_iff, Option, none, some, find_row, save_row,
  find_row-save_row_self, find_row-save_row_ne, Bool-cases, inl, inr, arith,
}
use mathlib.Core.Path.{subst}
use edx_enterprise_subsidy.Schema.Subsidy.{Subsidy}
use edx_enterprise_subsidy.Service.{World}

abbrev pub subsidy_uuid : Subsidy → ℕ
subsidy_uuid s = s.uuid

abbrev pub subsidy_row : ℕ → World → Option Subsidy
subsidy_row k w = find_row subsidy_uuid k w.subsidies

-- the same uuid, ledger and starting balance; and once deleted, deleted for ever
pub record Kept (s s' : Subsidy) : Type 0 where
  pub uuid : s'.uuid ≡ s.uuid
  pub ledger : s'.ledger ≡ s.ledger
  pub starting_balance : s'.starting_balance ≡ s.starting_balance
  pub deleted : s.is_soft_deleted ≡ true → s'.is_soft_deleted ≡ true

pub Kept-refl : (s : Subsidy) → Kept s s
Kept-refl s = record { uuid = refl; ledger = refl; starting_balance = refl; deleted = λ h. h }

pub Kept-trans : (s t u : Subsidy) → Kept s t → Kept t u → Kept s u
Kept-trans s t u h k = record {
  uuid = k.uuid ∙ h.uuid;
  ledger = k.ledger ∙ h.ledger;
  starting_balance = k.starting_balance ∙ h.starting_balance;
  deleted = λ d. k.deleted (h.deleted d);
}

-- every row of `w` is in `v`, kept
abbrev pub Keeps : World → World → Type 0
Keeps w v =
    (k : ℕ) (s : Subsidy)
    → subsidy_row k w ≡ some s
    → (s' : Subsidy) × (subsidy_row k v ≡ some s') × Kept s s'

pub Keeps-refl : (w : World) → Keeps w w
Keeps-refl w k s h = (s, h, Kept-refl s)

pub Keeps-trans : (u v w : World) → Keeps u v → Keeps v w → Keeps u w
Keeps-trans u v w h g k s e =
    let (s', e', kept) = h k s e in
    let (t, f, kept') = g k s' e' in (t, f, Kept-trans s s' t kept kept')

some_inj : (s t : Subsidy) → some s ≡ some t → s ≡ t
some_inj s t h = ground arith

-- a row is saved over the one of its uuid, which it keeps
pub over-Keeps :
    (s self : Subsidy) (w v : World)
    → subsidy_row s.uuid w ≡ some s
    → Kept s self
    → v.subsidies ≡ save_row subsidy_uuid self w.subsidies
    → Keeps w v
over-Keeps s self w v found kept e k t h = elim (Bool-cases (k == s.uuid)) [
  | inl same ↦
      let eq : k ≡ s.uuid = (==_iff k s.uuid).0 same in
      let t_is : s ≡ t = some_inj s t (sym found ∙ ap (λ j. subsidy_row j w) (sym eq) ∙ h) in
      (
        self,
        ap (find_row subsidy_uuid k) e
            ∙ ap (λ j. find_row subsidy_uuid j (save_row subsidy_uuid self w.subsidies))
                (eq ∙ sym kept.uuid)
            ∙ find_row-save_row_self subsidy_uuid self w.subsidies,
        subst (λ x. Kept x self) t_is kept,
      )
  | inr ne ↦ (
    t,
    ap (find_row subsidy_uuid k) e
        ∙ find_row-save_row_ne subsidy_uuid k self w.subsidies
            (subst (λ j. k ≢ j) (sym kept.uuid) (ground arith))
        ∙ h,
    Kept-refl t,
  )
]

-- a row of a new uuid is saved
pub new-Keeps :
    (self : Subsidy) (w v : World)
    → subsidy_row self.uuid w ≡ none
    → v.subsidies ≡ save_row subsidy_uuid self w.subsidies
    → Keeps w v
new-Keeps self w v fresh e k t h = elim (Bool-cases (k == self.uuid)) [
  | inl same ↦
      let eq : k ≡ self.uuid = (==_iff k self.uuid).0 same in
      absurd (let bad : none ≡ some t = sym fresh ∙ ap (λ j. subsidy_row j w) (sym eq) ∙ h in cc)
  | inr ne ↦ (
    t,
    ap (find_row subsidy_uuid k) e
        ∙ find_row-save_row_ne subsidy_uuid k self w.subsidies (ground arith)
        ∙ h,
    Kept-refl t,
  )
]
