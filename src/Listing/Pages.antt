-- ===== src/Listing/Pages.antt =====
-- The number of pages of the SubsidyListPaginator.
use edx_enterprise_subsidy.Common.{
  ℕ, suc, ◌+◌, ◌-◌, ◌*◌, ◌≤◌, ◌≡◌, ap, ◌∙◌, ◌↔◌, false, ◌==◌, Option, if◌then◌else◌, arith,
}
use native.Mathlib.Nat.{div-lt_iff_lt-mul}
use edx_enterprise_subsidy.Common.Int.{ℤ, pos}
use edx_enterprise_subsidy.Service.{ok, err, Exception}
use edx_enterprise_subsidy.Listing.{ceil_div, page_count, max_page_size, page_size_of, pages_of}

ceil_div_le_iff : (count n m : ℕ) → (ceil_div count (suc n) ≤ m) ↔ (count ≤ m * suc n)
ceil_div_le_iff count n m =
    let (f, g) =
      div-lt_iff_lt-mul {k = suc n} {x = count + (suc n - 1)} {y = suc m} (omega arith) in
    (λ h. let k = f (omega arith) in omega arith, λ h. let k = g (omega arith) in omega arith)

-- For a page size from 1 to `max_page_size`, given or the default, which is the number of rows that a
-- page then holds, `page_count` is the least number of pages that hold all rows: a number of pages is
-- enough exactly if it is at least that.
pub page_count_lem :
    (count : ℕ) (page_size : Option (Option ℤ)) (n : ℕ)
    → page_size_of page_size ≡ ok (pos (suc n))
    → suc n ≤ max_page_size
    → (k : ℕ) × (page_count count page_size ≡ ok (pos k))
      × ((m : ℕ) → (k ≤ m) ↔ (count ≤ m * suc n))
unfolding page_count
page_count_lem count page_size n h served =
    let not_zero : (suc n == 0) ≡ false = ground arith in
    let rounded =
      ap (λ b. if b then err Exception.zero_division else ok (pos (ceil_div count (suc n))))
        not_zero in
    (ceil_div count (suc n), ap (pages_of count) h ∙ rounded, λ m. ceil_div_le_iff count n m)
