-- ===== src/ApiClient/Quiet.antt =====
-- The clients write to no table and send no event.
use edx_enterprise_subsidy.Common.{ℕ, String, refl, Option, none, some, find, opt_eq, if◌then◌else◌}
use edx_enterprise_subsidy.Schema.Ledger.{Transaction}
use edx_enterprise_subsidy.Schema.Subsidy.{Subsidy}
use edx_enterprise_subsidy.Schema.Remote.{UserData}
use edx_enterprise_subsidy.Service.{Env, CacheKey, Exec, Exception}
use edx_enterprise_subsidy.Service.Quiet.{Quiet, quiet_rules, Quiet-catch}
use edx_enterprise_subsidy.ContentMetadata.{find_cached}
use edx_enterprise_subsidy.ApiClient.{
  or_raise, subsidy_of, enroll, client_cancel_fulfillment, get_enterprise_customer_data,
  get_user_data, remember_user, user_unless_cached, none_on_http_error, best_effort_user_data,
}

or_raise-Quiet : (o : Option Subsidy) → Quiet (or_raise o)
or_raise-Quiet none = search quiet_rules
or_raise-Quiet (some subsidy) = search quiet_rules

pub subsidy_of-Quiet : (t : Transaction) → Quiet (subsidy_of t)
unfolding subsidy_of
subsidy_of-Quiet t = record {
  at = λ w. (or_raise-Quiet (find (λ s. opt_eq s.ledger t.ledger_uuid) w.subsidies)).at w;
}

module _ (env : Env) where
  pub enroll-Quiet : (user : ℕ) (key : String) (t : Transaction) → Quiet (enroll env user key t)
  unfolding enroll
  enroll-Quiet user key t = search (quiet_rules, subsidy_of-Quiet)

  client_cancel_fulfillment-Quiet : (id : String) → Quiet (client_cancel_fulfillment env id)
  unfolding client_cancel_fulfillment
  client_cancel_fulfillment-Quiet id = search quiet_rules

  pub get_enterprise_customer_data-Quiet :
      (customer : ℕ) → Quiet (get_enterprise_customer_data env customer)
  unfolding get_enterprise_customer_data
  get_enterprise_customer_data-Quiet customer = search quiet_rules

  get_user_data-Quiet : (user : ℕ) → Quiet (get_user_data env user)
  unfolding get_user_data
  get_user_data-Quiet user = search quiet_rules

  remember_user-Quiet :
      (key : CacheKey) (user : Option UserData) → Quiet (remember_user env key user)
  remember_user-Quiet key none = search quiet_rules
  remember_user-Quiet key (some user) = record {
    at = λ w. record {
      transactions = refl;
      reversals = refl;
      references = refl;
      deposits = refl;
      subsidies = refl;
      events = refl;
    };
  }

  user_unless_cached-Quiet :
      (cached : Option UserData) (key : CacheKey) (fetch : Exec (Option UserData))
      → Quiet fetch
      → Quiet (user_unless_cached env cached key fetch)
  user_unless_cached-Quiet none key fetch h = search (quiet_rules, remember_user-Quiet)
  user_unless_cached-Quiet (some user) key fetch h = search quiet_rules

  none_on_http_error-Quiet : (e : Exception) → Quiet (none_on_http_error env e)
  none_on_http_error-Quiet (Exception.http_error code) = search quiet_rules
  none_on_http_error-Quiet _ = search quiet_rules

  pub best_effort_user_data-Quiet : (user : ℕ) → Quiet (best_effort_user_data env user)
  unfolding best_effort_user_data
  best_effort_user_data-Quiet user = record {
    at = λ w.
        let key = CacheKey.lms_user user in
        let cached = if env.is_cached w key then find_cached key w.user_cache else none in
        (Quiet-catch (user_unless_cached env cached key (get_user_data env user))
            (none_on_http_error env)
            (user_unless_cached-Quiet cached key (get_user_data env user)
              (get_user_data-Quiet user))
            none_on_http_error-Quiet).at
          w;
  }
