-- ===== src/Backpopulate/Fills.antt =====
-- What backpopulating may do to the table of transactions: fill in null fields.
use edx_enterprise_subsidy.Common.{
  ℕ, ◌≡◌, refl, ◌∙◌, sym, ap, ◌⊎◌, inl, inr, String, ◌==◌, ==_iff, Option, none, some, find_row,
  find_row-save_row_self, find_row-save_row_ne, arith, Bool-cases,
}
use mathlib.Core.Path.{subst}
use edx_enterprise_subsidy.Schema.Ledger.{Transaction}
use edx_enterprise_subsidy.Service.{World}
use edx_enterprise_subsidy.Service.Quiet.{SameTables}
use edx_enterprise_subsidy.Batches.Sorted.{IsDistinct}
use edx_enterprise_subsidy.Redemption.{save}
use edx_enterprise_subsidy.Redemption.Settled.{row}
use edx_enterprise_subsidy.Batches.Rows.{save_row-IsDistinct}

-- a field that was null, or is as it was
abbrev pub KeptOrFilled : Option String → Option String → Type 0
KeptOrFilled before after = (before ≡ none) ⊎ (after ≡ before)

-- `t'` is `t` up to its email, title and parent key, where each was null or is as it was
pub record Fills (t t' : Transaction) : Type 0 where
  pub email : KeptOrFilled t.lms_user_email t'.lms_user_email
  pub title : KeptOrFilled t.content_title t'.content_title
  pub parent : KeptOrFilled t.parent_content_key t'.parent_content_key
  pub rest : t' ≡ record t {
    lms_user_email = t'.lms_user_email;
    content_title = t'.content_title;
    parent_content_key = t'.parent_content_key;
  }

pub Fills-refl : (t : Transaction) → Fills t t
Fills-refl t = record { email = inr refl; title = inr refl; parent = inr refl; rest = refl }

KeptOrFilled-trans :
    (a b c : Option String) → KeptOrFilled a b → KeptOrFilled b c → KeptOrFilled a c
KeptOrFilled-trans a b c h k = ground arith

pub Fills-trans : (t u v : Transaction) → Fills t u → Fills u v → Fills t v
Fills-trans t u v h k = record {
  email = KeptOrFilled-trans t.lms_user_email u.lms_user_email v.lms_user_email h.email k.email;
  title = KeptOrFilled-trans t.content_title u.content_title v.content_title h.title k.title;
  parent =
      KeptOrFilled-trans t.parent_content_key u.parent_content_key v.parent_content_key h.parent
        k.parent;
  rest =
      k.rest
      ∙ ap
          (λ (x : Transaction). record x {
            lms_user_email = v.lms_user_email;
            content_title = v.content_title;
            parent_content_key = v.parent_content_key;
          })
          h.rest;
}

-- a row that is there stays, filled; and no row is added
abbrev pub RowFills : Option Transaction → Option Transaction → Type 0
RowFills none o = o ≡ none
RowFills (some t) o = (t' : Transaction) × (o ≡ some t') × Fills t t'

RowFills-refl : (o : Option Transaction) → RowFills o o
RowFills-refl none = refl
RowFills-refl (some t) = (t, refl, Fills-refl t)

RowFills-trans : (a b c : Option Transaction) → RowFills a b → RowFills b c → RowFills a c
RowFills-trans none b c h k = subst (λ o. RowFills o c) h k
RowFills-trans (some t) b c (u, e, h) k =
    let (v, e', k') = subst (λ o. RowFills o c) e k in (v, e', Fills-trans t u v h k')

-- nothing but null fields has been filled in, and nothing else was written or emitted
pub record Grows (w w' : World) : Type 0 where
  pub rows : (u : ℕ) → RowFills (row u w) (row u w')
  pub reversals : w'.reversals ≡ w.reversals
  pub subsidies : w'.subsidies ≡ w.subsidies
  pub events : w'.events ≡ w.events
  pub distinct : IsDistinct (λ (t : Transaction). t.uuid) w'.transactions

-- from a table without duplicate keys
abbrev pub Backpopulates : World → World → Type 0
Backpopulates w w' = IsDistinct (λ (t : Transaction). t.uuid) w.transactions → Grows w w'

pub SameTables-Backpopulates : (w w' : World) → SameTables w w' → Backpopulates w w'
SameTables-Backpopulates w w' h distinct = record {
  rows = λ u.
      subst (λ ts. RowFills (row u w) (find_row (λ t. t.uuid) u ts)) (sym h.transactions)
        (RowFills-refl (row u w));
  reversals = h.reversals;
  subsidies = h.subsidies;
  events = h.events;
  distinct = subst (IsDistinct (λ t. t.uuid)) (sym h.transactions) distinct;
}

pub Backpopulates-trans :
    (u v w : World) → Backpopulates u v → Backpopulates v w → Backpopulates u w
Backpopulates-trans u v w h k distinct =
    let g = h distinct in
    let g' = k g.distinct in
    record {
      rows = λ x. RowFills-trans (row x u) (row x v) (row x w) (g.rows x) (g'.rows x);
      reversals = g'.reversals ∙ g.reversals;
      subsidies = g'.subsidies ∙ g.subsidies;
      events = g'.events ∙ g.events;
      distinct = g'.distinct;
    }

-- saving the row that is in the table, filled
pub save-Backpopulates :
    (t t' : Transaction) (w : World)
    → row t.uuid w ≡ some t
    → Fills t t'
    → Backpopulates w (save t' w).1
save-Backpopulates t t' w found fills distinct =
    let same : t'.uuid ≡ t.uuid = ap (λ (x : Transaction). x.uuid) fills.rest in
    record {
      rows = λ u. elim (Bool-cases (u == t.uuid)) [
        | inl e ↦
            let eq : u ≡ t.uuid = (==_iff u t.uuid).0 e in
            subst (λ o. RowFills o (row u (save t' w).1)) (sym (ap (λ k. row k w) eq ∙ found))
              (
                t',
                ap (λ k. row k (save t' w).1) (eq ∙ sym same)
                    ∙ find_row-save_row_self (λ x. x.uuid) t' w.transactions,
                fills,
              )
        | inr ne ↦
            subst (RowFills (row u w))
              (sym (find_row-save_row_ne (λ x. x.uuid) u t' w.transactions (ground arith)))
              (RowFills-refl (row u w))
      ];
      reversals = refl;
      subsidies = refl;
      events = refl;
      distinct = save_row-IsDistinct (λ x. x.uuid) t' w.transactions distinct;
    }
