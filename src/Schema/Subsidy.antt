-- ===== src/Schema/Subsidy.antt =====
-- The `Subsidy` model of apps/subsidy/models.py. Times are seconds; `reference_type` is a slug of
-- `SubsidyReferenceChoices`. The history table and the help texts are left out.
use edx_enterprise_subsidy.Common.{ℕ, String, Bool, Option}
use edx_enterprise_subsidy.Common.Int.{ℤ}

-- RevenueCategoryChoices
pub data RevenueCategory : Type 0 where
  bulk_enrollment_prepay partner_no_rev_prepay : RevenueCategory

pub record Subsidy : Type 0 where
  pub uuid : ℕ
  pub title : Option String
  pub starting_balance : ℤ
  pub ledger : Option ℕ
  pub unit : String
  pub reference_id : Option String
  pub reference_type : String
  pub enterprise_customer_uuid : ℕ
  pub internal_only : Bool
  pub revenue_category : RevenueCategory
  pub active_datetime : Option ℕ
  pub expiration_datetime : Option ℕ
  pub is_soft_deleted : Bool
