-- ===== src/Tests/Ledger.antt =====
-- The sample ledger keeps what openedx_ledger promises.
use edx_enterprise_subsidy.Common.{
  ℕ, ◌<◌, ◌≡◌, ◌≢◌, refl, ap, inl, inr, ◌⊎◌, false, Option, none, some, List, [], ◌∷◌, ◌++◌, find,
  find_holds, find_row, any, ◌==◌, eq_iff, arith,
}
use mathlib.Core.Path.{subst}
use edx_enterprise_subsidy.Schema.Ledger.{Transaction, NewTransaction, Reversal}
use edx_enterprise_subsidy.Service.{World, Result, ok, err}
use edx_enterprise_subsidy.Batches.Sorted.{IsDistinct}
use edx_enterprise_subsidy.Batches.Rows.{All-find, rows_found}
use edx_enterprise_subsidy.Redemption.Settled.{row}
use edx_enterprise_subsidy.Redemption.Keys.{Made, Got, GetsOrCreates}
use edx_enterprise_subsidy.Samples.{sample_env, made, get_or_make, has_key, next_uuid, total}

abbrev or_else : {A : Type 0} → A → Result A → A
or_else default (ok a) = a
or_else default (err e) = default

find_row-append :
    (x : ℕ) (t : Transaction) (rows : List Transaction)
    → x ≢ t.uuid
    → find_row (λ (r : Transaction). r.uuid) x (rows ++ t ∷ []) ≡ find_row (λ r. r.uuid) x rows
unfolding find_row
find_row-append x t [] ne = ground arith
find_row-append x t (r ∷ rows) ne = ground (arith, find_row-append x t rows ne)

find_row-beyond :
    (x : ℕ) (rows : List Transaction)
    → total (λ (t : Transaction). t.uuid) rows < x
    → find_row (λ (r : Transaction). r.uuid) x rows ≡ none
unfolding find_row
find_row-beyond x [] h = refl
find_row-beyond x (r ∷ rows) h =
    let rest = find_row-beyond x rows (omega arith) in ground (arith, rest, h)

any-beyond :
    (x : ℕ) (rows : List Reversal)
    → total (λ (r : Reversal). r.transaction_uuid) rows < x
    → any (λ (r : Reversal). r.transaction_uuid == x) rows ≡ false
any-beyond x [] h = refl
any-beyond x (r ∷ rows) h = let rest = any-beyond x rows (omega arith) in ground (arith, rest, h)

from_ok :
    (p q : Transaction × List Transaction)
    → ◌≡◌ {A = Result (Transaction × List Transaction)} (ok p) (ok q)
    → p ≡ q
from_ok p q h = ap (or_else p) h

-- the sample ledger gets the row that a key has
made_new :
    (n : NewTransaction) (w : World)
    → let t = record (made n []) { uuid = next_uuid w } in Made n w t (w.transactions ++ t ∷ [])
made_new n w =
    let t = record (made n []) { uuid = next_uuid w } in
    record {
      fresh = find_row-beyond t.uuid w.transactions (omega arith);
      others = λ x ne. find_row-append x t w.transactions ne;
      ledger_kept = refl;
      user_kept = refl;
      key_kept = refl;
      not_reversed = any-beyond t.uuid w.reversals (omega arith);
    }

got_row :
    (n : NewTransaction) (w : World) (x : Transaction)
    → IsDistinct (λ (t : Transaction). t.uuid) w.transactions
    → find (has_key n) w.transactions ≡ some x
    → Got n w x w.transactions
got_row n w x distinct e =
    let holds = find_holds (has_key n) w.transactions x e in
    let named = (eq_iff x.idempotency_key n.idempotency_key).0 in
    record {
      stored =
          All-find (λ (t : Transaction). row t.uuid w ≡ some t) (has_key n) w.transactions x
            (rows_found (λ (t : Transaction). t.uuid) w.transactions distinct) e;
      unchanged = refl;
      ledger_same = ground (arith, holds);
      key_same = ground (arith, holds, named);
    }

answered :
    (n : NewTransaction) (w : World) (o : Option Transaction) (t : Transaction)
    (rows : List Transaction)
    → IsDistinct (λ (x : Transaction). x.uuid) w.transactions
    → find (has_key n) w.transactions ≡ o
    → get_or_make o n w ≡ ok (t, rows)
    → Made n w t rows ⊎ Got n w t rows
answered n w none t rows distinct e h =
    inl (subst (λ p. Made n w p.0 p.1) (from_ok _ (t, rows) h) (made_new n w))
answered n w (some x) t rows distinct e h =
    inr (subst (λ p. Got n w p.0 p.1) (from_ok _ (t, rows) h) (got_row n w x distinct e))

pub sample-GetsOrCreates : GetsOrCreates sample_env
sample-GetsOrCreates = record {
  answers = λ n w t rows distinct h.
      answered n w (find (has_key n) w.transactions) t rows distinct refl h;
}
