-- ===== src/Backpopulate/Queries.antt =====
-- A dry run of `process_transaction` of either command sends only queries.
use edx_enterprise_subsidy.Common.{true, Option, none, some}
use edx_enterprise_subsidy.Schema.Ledger.{Transaction}
use edx_enterprise_subsidy.Schema.Subsidy.{Subsidy}
use edx_enterprise_subsidy.Service.{Env, Exec}
use edx_enterprise_subsidy.Service.Asking.{Asking, asking_rules}
use edx_enterprise_subsidy.ContentMetadata.Caching.{get_content_metadata-Asking}
use edx_enterprise_subsidy.Subsidy.Asking.{email_for_learner-Asking, title_for_content-Asking}
use edx_enterprise_subsidy.Backpopulate.{
  if_missing, fill_email, fill_title, fill_parent_content_key, process_email_and_title,
  process_parent_content_key,
}

if_missing-Asking :
    {A B : Type 0} (a : Option A) (b : Option B) (t : Transaction) (fill : B → Exec Transaction)
    → ((x : B) → Asking (fill x))
    → Asking (if_missing a b t fill)
if_missing-Asking none (some b) t fill h = h b
if_missing-Asking none none t fill h = search asking_rules
if_missing-Asking (some a) b t fill h = search asking_rules

module _ (env : Env) where
  fill_email-Asking : (subsidy : Subsidy) (t : Transaction) → Asking (fill_email env subsidy t)
  fill_email-Asking subsidy t =
      if_missing-Asking t.lms_user_email t.lms_user_id t _
        λ user. search (asking_rules, email_for_learner-Asking)

  fill_title-Asking : (subsidy : Subsidy) (t : Transaction) → Asking (fill_title env subsidy t)
  fill_title-Asking subsidy t =
      if_missing-Asking t.content_title t.content_key t _
        λ key. search (asking_rules, title_for_content-Asking)

  fill_parent_content_key-Asking : (t : Transaction) → Asking (fill_parent_content_key env t)
  fill_parent_content_key-Asking t =
      if_missing-Asking t.parent_content_key t.content_key t _
        λ key. search (asking_rules, get_content_metadata-Asking)

  pub process_email_and_title-Asking :
      (subsidy : Subsidy) (t : Transaction) → Asking (process_email_and_title env true subsidy t)
  unfolding process_email_and_title
  process_email_and_title-Asking subsidy t =
      search (asking_rules, fill_email-Asking, fill_title-Asking)

  pub process_parent_content_key-Asking :
      (subsidy : Subsidy) (t : Transaction) → Asking (process_parent_content_key env true subsidy t)
  unfolding process_parent_content_key
  process_parent_content_key-Asking subsidy t =
      search (asking_rules, fill_parent_content_key-Asking)
