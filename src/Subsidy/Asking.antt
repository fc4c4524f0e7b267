-- ===== src/Subsidy/Asking.antt =====
-- Reading emails and titles sends only queries.
use edx_enterprise_subsidy.Common.{ℕ, String, refl, Option, none, some, if◌then◌else◌}
use edx_enterprise_subsidy.Schema.Remote.{UserData, Request}
use edx_enterprise_subsidy.Schema.Subsidy.{Subsidy}
use edx_enterprise_subsidy.Service.{Env, CacheKey, Exec, Exception, call}
use edx_enterprise_subsidy.Service.Asking.{
  Asking, Asking-bind, Asking-call, Asking-catch, asking_rules,
}
use edx_enterprise_subsidy.ContentMetadata.{find_cached}
use edx_enterprise_subsidy.ContentMetadata.Caching.{get_content_summary-Asking}
use edx_enterprise_subsidy.ApiClient.{
  get_user_data, remember_user, user_unless_cached, none_on_http_error, best_effort_user_data,
}
use edx_enterprise_subsidy.Subsidy.{
  on_not_found, email_for_learner, title_for_content, metadata_summary_for_content,
}

on_not_found-Asking :
    {A : Type 0} (e : Exception) (m : Exec A) → Asking m → Asking (on_not_found {A = A} e m)
on_not_found-Asking (Exception.http_error code) m h = search asking_rules
on_not_found-Asking _ m h = search asking_rules

module _ (env : Env) where
  get_user_data-Asking : (user : ℕ) → Asking (get_user_data env user)
  unfolding get_user_data
  get_user_data-Asking user =
      Asking-bind (call (Request.user_data user) env.user_data) _
        (Asking-call (Request.user_data user) env.user_data refl) λ users. search asking_rules

  remember_user-Asking :
      (key : CacheKey) (user : Option UserData) → Asking (remember_user env key user)
  remember_user-Asking key none = search asking_rules
  remember_user-Asking key (some user) = record { at = λ w. refl }

  user_unless_cached-Asking :
      (cached : Option UserData) (key : CacheKey) (fetch : Exec (Option UserData))
      → Asking fetch
      → Asking (user_unless_cached env cached key fetch)
  user_unless_cached-Asking none key fetch h = search (asking_rules, remember_user-Asking)
  user_unless_cached-Asking (some user) key fetch h = search asking_rules

  none_on_http_error-Asking : (e : Exception) → Asking (none_on_http_error env e)
  none_on_http_error-Asking (Exception.http_error code) = search asking_rules
  none_on_http_error-Asking _ = search asking_rules

  best_effort_user_data-Asking : (user : ℕ) → Asking (best_effort_user_data env user)
  unfolding best_effort_user_data
  best_effort_user_data-Asking user = record {
    at = λ w.
        let key = CacheKey.lms_user user in
        let cached = if env.is_cached w key then find_cached key w.user_cache else none in
        (Asking-catch (user_unless_cached env cached key (get_user_data env user))
            (none_on_http_error env)
            (user_unless_cached-Asking cached key (get_user_data env user)
              (get_user_data-Asking user))
            none_on_http_error-Asking).at
          w;
  }

  module _ (self : Subsidy) where
    pub email_for_learner-Asking : (user : ℕ) → Asking (email_for_learner env self user)
    unfolding email_for_learner
    email_for_learner-Asking user = search (asking_rules, best_effort_user_data-Asking)

    metadata_summary_for_content-Asking :
        (key : String) → Asking (metadata_summary_for_content env self key)
    unfolding metadata_summary_for_content
    metadata_summary_for_content-Asking key =
        search (asking_rules, get_content_summary-Asking, on_not_found-Asking)

    pub title_for_content-Asking : (key : String) → Asking (title_for_content env self key)
    unfolding title_for_content
    title_for_content-Asking key = search (asking_rules, metadata_summary_for_content-Asking)
