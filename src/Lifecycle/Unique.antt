-- ===== src/Lifecycle/Unique.antt =====
-- Subsidies that are not internal have unique references.
use edx_enterprise_subsidy.Common.{
  ℕ, ◌≡◌, refl, ◌∙◌, sym, ap, String, Bool, true, false, not, ◌&&◌, ◌||◌, Option, none, some, List,
  All, find, arith, if◌then◌else◌, save_row, is_some, str_eq, eq_iff, find-none, All-map,
  All-save_row, All-always, All-both,
}
use edx_enterprise_subsidy.Schema.Ledger.{Deposit, Transaction}
use edx_enterprise_subsidy.Schema.Subsidy.{Subsidy}
use edx_enterprise_subsidy.Service.{
  World, Result, ok, err, Exception, pure, modify, raise_if, proceed, ◌>>=◌, ◌>>◌,
}
use edx_enterprise_subsidy.ContentMetadata.{same_text}
use edx_enterprise_subsidy.Lifecycle.{
  same_reference, clean, with_ledger, subsidy_pre_save, save_subsidy,
}

-- two different rows of the same reference, neither of them internal or soft-deleted
abbrev clash : Subsidy → Subsidy → Bool
clash a b =
    not a.internal_only && (not b.internal_only && (not a.is_soft_deleted && same_reference a b))

-- no two rows clash
abbrev pub UniqueReferences : List Subsidy → Type 0
UniqueReferences rows = All (λ a. All (λ b. clash a b ≡ false) rows) rows

bool_eq : (b c : Bool) → (b ≡ true → c ≡ true) → (c ≡ true → b ≡ true) → b ≡ c
bool_eq true c f g = sym (f refl)
bool_eq false true f g = g refl
bool_eq false false f g = refl

str_eq_sym : (s t : String) → str_eq s t ≡ str_eq t s
str_eq_sym s t =
    bool_eq (str_eq s t) (str_eq t s) (λ h. (eq_iff t s).1 (sym ((eq_iff s t).0 h)))
      (λ h. (eq_iff s t).1 (sym ((eq_iff t s).0 h)))

same_text_sym : (s t : Option String) → same_text s t ≡ same_text t s
same_text_sym none none = refl
same_text_sym none (some t) = refl
same_text_sym (some s) none = refl
same_text_sym (some s) (some t) = str_eq_sym s t

clash_sym : (a b : Subsidy) → clash a b ≡ false → clash b a ≡ false
clash_sym a b h = ground (
  arith,
  same_text_sym a.reference_id b.reference_id,
  str_eq_sym a.reference_type b.reference_type,
)

clash_self : (a : Subsidy) → clash a a ≡ false
clash_self a = ground arith

save_row-UniqueReferences :
    (saved : Subsidy) (rows : List Subsidy)
    → All (λ b. clash saved b ≡ false) rows
    → UniqueReferences rows
    → UniqueReferences (save_row (λ s. s.uuid) saved rows)
save_row-UniqueReferences saved rows fresh unique =
    let rows' = save_row (λ (s : Subsidy). s.uuid) saved rows in
    All-save_row (λ s. s.uuid) (λ a. All (λ b. clash a b ≡ false) rows') saved rows
      (All-save_row (λ s. s.uuid) (λ b. clash saved b ≡ false) saved rows (clash_self saved) fresh)
      (All-map (λ a. All (λ b. clash a b ≡ false) rows × (clash saved a ≡ false))
        (λ a. All (λ b. clash a b ≡ false) rows') rows
        (λ a (others, h).
          All-save_row (λ s. s.uuid) (λ b. clash a b ≡ false) saved rows (clash_sym saved a h)
            others)
        (All-both (λ a. All (λ b. clash a b ≡ false) rows) (λ a. clash saved a ≡ false) rows unique
          fresh))

module _ (create_ledger : Subsidy → World → Result (ℕ × List Transaction × List Deposit)) where
  accepted_if :
      (self : Subsidy) (rows : List Subsidy) (found : Option Subsidy)
      → find (same_reference self) rows ≡ found
      → (not self.internal_only && is_some found) ≡ false
      → All (λ b. clash self b ≡ false) rows
  accepted_if self rows none e h =
      All-map (λ b. same_reference self b ≡ false) (λ b. clash self b ≡ false) rows
        (λ b k. ground arith) (find-none (same_reference self) rows e)
  accepted_if self rows (some other) e h =
      All-always (λ b. clash self b ≡ false) rows (λ b. ground arith)

  -- no other row of the table clashes with a row that `clean` accepts
  accepted :
      (self : Subsidy) (w : World)
      → (not self.internal_only && is_some (find (same_reference self) w.subsidies)) ≡ false
      → All (λ b. clash self b ≡ false) w.subsidies
  accepted self w h = accepted_if self w.subsidies (find (same_reference self) w.subsidies) refl h

  abbrev row_of : Subsidy → Result Subsidy → Subsidy
  row_of default (ok s) = s
  row_of default (err e) = default

  stored :
      (self : Subsidy) (w : World) (unique : UniqueReferences w.subsidies)
      (fresh : All (λ b. clash self b ≡ false) w.subsidies) (r : Result Subsidy) (v : World)
      → v.subsidies ≡ w.subsidies
      → ((saved : Subsidy) → r ≡ ok saved → (b : Subsidy) → clash saved b ≡ clash self b)
      → UniqueReferences
          (proceed r
            (λ saved.
              modify (λ w. record w { subsidies = save_row (λ s. s.uuid) saved w.subsidies })
              >> pure saved)
            v).1.subsidies
  stored self w unique fresh (ok saved) v e same =
      coe 0 1 (i. UniqueReferences (save_row (λ s. s.uuid) saved (sym e i))) (
        save_row-UniqueReferences saved w.subsidies
          (All-map (λ b. clash self b ≡ false) (λ b. clash saved b ≡ false) w.subsidies
            (λ b k. same saved refl b ∙ k) fresh)
          unique)
  stored self w unique fresh (err x) v e same = coe 0 1 (i. UniqueReferences (sym e i)) unique

  with_ledger_kept :
      (self : Subsidy) (r : Result (ℕ × List Transaction × List Deposit)) (w : World)
      → (with_ledger create_ledger self r w).1.subsidies ≡ w.subsidies
  with_ledger_kept self (ok _) w = refl
  with_ledger_kept self (err x) w = refl

  with_ledger_same :
      (test : Subsidy → Bool) (self : Subsidy) (r : Result (ℕ × List Transaction × List Deposit))
      (w : World) (saved : Subsidy)
      → ((ledger : ℕ) → test (record self { ledger = some ledger }) ≡ test self)
      → (with_ledger create_ledger self r w).0 ≡ ok saved
      → test saved ≡ test self
  with_ledger_same test self (ok (ledger, rows, deposits)) w saved same h =
      sym (ap (λ r. test (row_of self r)) h) ∙ same ledger
  with_ledger_same test self (err x) w saved same h = cc

  pub pre_save_kept :
      (adding : Bool) (self : Subsidy) (w : World)
      → (subsidy_pre_save create_ledger adding self w).1.subsidies ≡ w.subsidies
  unfolding subsidy_pre_save
  pre_save_kept adding self w =
      elim (is_some self.ledger || not adding)
        as (λ b.
          (if b
            then (ok self, w)
            else with_ledger create_ledger self (create_ledger self w) w).1.subsidies
          ≡ w.subsidies) [ true ↦ refl | false ↦ with_ledger_kept self (create_ledger self w) w ]

  -- a test that does not read the ledger
  pub pre_save_same :
      (test : Subsidy → Bool) (adding : Bool) (self : Subsidy) (w : World) (saved : Subsidy)
      → ((ledger : ℕ) → test (record self { ledger = some ledger }) ≡ test self)
      → (subsidy_pre_save create_ledger adding self w).0 ≡ ok saved
      → test saved ≡ test self
  unfolding subsidy_pre_save
  pre_save_same test adding self w saved same =
      elim (is_some self.ledger || not adding)
        as (λ c.
          (if c then (ok self, w) else with_ledger create_ledger self (create_ledger self w) w).0
            ≡ ok saved
          → test saved ≡ test self) [
            | true ↦ λ h. sym (ap (λ r. test (row_of self r)) h)
            | false ↦ with_ledger_same test self (create_ledger self w) w saved same
          ]

  if_clean :
      (adding : Bool) (self : Subsidy) (w : World) (unique : UniqueReferences w.subsidies)
      (blocked : Bool)
      → (not self.internal_only && is_some (find (same_reference self) w.subsidies)) ≡ blocked
      → UniqueReferences
          ((raise_if blocked Exception.validation >>= λ _.
              subsidy_pre_save create_ledger adding self >>= λ saved.
              modify (λ w. record w { subsidies = save_row (λ s. s.uuid) saved w.subsidies })
              >> pure saved)
            w).1.subsidies
  unfolding subsidy_pre_save
  if_clean adding self w unique true h = unique
  if_clean adding self w unique false h =
      stored self w unique (accepted self w h) (subsidy_pre_save create_ledger adding self w).0
        (subsidy_pre_save create_ledger adding self w).1 (pre_save_kept adding self w)
        (λ saved e b. pre_save_same (λ s. clash s b) adding self w saved (λ ledger. refl) e)

  -- A save keeps the references unique, whether it creates, changes or soft-deletes the row and
  -- whether it succeeds or raises: no two rows that are neither internal nor soft-deleted have the
  -- same reference id and type.
  pub save_subsidy-UniqueReferences :
      (adding : Bool) (self : Subsidy) (w : World)
      → UniqueReferences w.subsidies
      → UniqueReferences (save_subsidy create_ledger adding self w).1.subsidies
  unfolding save_subsidy clean subsidy_pre_save
  save_subsidy-UniqueReferences adding self w unique =
      if_clean adding self w unique
        (not self.internal_only && is_some (find (same_reference self) w.subsidies)) refl
