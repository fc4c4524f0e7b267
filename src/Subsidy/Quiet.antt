-- ===== src/Subsidy/Quiet.antt =====
-- Reading prices, summaries and balances writes to no table.
use edx_enterprise_subsidy.Common.{ℕ, String, Option, none, some}
use edx_enterprise_subsidy.Common.Int.{ℤ}
use edx_enterprise_subsidy.Schema.Subsidy.{Subsidy}
use edx_enterprise_subsidy.Service.{Env, Exec, Exception}
use edx_enterprise_subsidy.Service.Quiet.{Quiet, quiet_rules}
use edx_enterprise_subsidy.ContentMetadata.Caching.{
  get_content_summary-Quiet, get_course_price-Quiet,
}
use edx_enterprise_subsidy.ApiClient.Quiet.{best_effort_user_data-Quiet}
use edx_enterprise_subsidy.Subsidy.{
  ledger_or_raise, on_not_found, email_for_learner, title_for_content, metadata_summary_for_content,
  price_for_content, current_balance, is_redeemable,
}

pub ledger_or_raise-Quiet : (ledger : Option ℕ) → Quiet (ledger_or_raise ledger)
ledger_or_raise-Quiet none = search quiet_rules
ledger_or_raise-Quiet (some ledger) = search quiet_rules

on_not_found-Quiet :
    {A : Type 0} (e : Exception) (m : Exec A) → Quiet m → Quiet (on_not_found {A = A} e m)
on_not_found-Quiet (Exception.http_error code) m h = search quiet_rules
on_not_found-Quiet _ m h = search quiet_rules

module _ (env : Env) (self : Subsidy) where
  pub email_for_learner-Quiet : (user : ℕ) → Quiet (email_for_learner env self user)
  unfolding email_for_learner
  email_for_learner-Quiet user = search (quiet_rules, best_effort_user_data-Quiet)

  pub metadata_summary_for_content-Quiet :
      (key : String) → Quiet (metadata_summary_for_content env self key)
  unfolding metadata_summary_for_content
  metadata_summary_for_content-Quiet key =
      search (quiet_rules, get_content_summary-Quiet, on_not_found-Quiet)

  pub title_for_content-Quiet : (key : String) → Quiet (title_for_content env self key)
  unfolding title_for_content
  title_for_content-Quiet key = search (quiet_rules, metadata_summary_for_content-Quiet)

  pub price_for_content-Quiet : (key : String) → Quiet (price_for_content env self key)
  unfolding price_for_content
  price_for_content-Quiet key = search (quiet_rules, get_course_price-Quiet, on_not_found-Quiet)

  current_balance-Quiet : Quiet (current_balance env self)
  unfolding current_balance
  current_balance-Quiet = search (quiet_rules, ledger_or_raise-Quiet)

  pub is_redeemable-Quiet :
      (key : String) (requested : Option ℤ) → Quiet (is_redeemable env self key requested)
  unfolding is_redeemable
  is_redeemable-Quiet key requested =
      search (quiet_rules, price_for_content-Quiet, current_balance-Quiet)
