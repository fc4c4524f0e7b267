-- ===== src/Fulfillment/Quiet.antt =====
-- Fulfilling with GEAG and cancelling there write to no table, but for the reference of a fulfillment.
use edx_enterprise_subsidy.Common.{ℕ, String, refl, Option, none, some, if◌then◌else◌}
use edx_enterprise_subsidy.Schema.Ledger.{Transaction, ExternalTransactionReference}
use edx_enterprise_subsidy.Schema.Remote.{CustomerData}
use edx_enterprise_subsidy.Service.{Env, CacheKey, Exec}
use edx_enterprise_subsidy.Service.Quiet.{Quiet, Quiet-lift, quiet_rules}
use edx_enterprise_subsidy.Service.KeepsLedger.{KeepsLedger, KeepsLedger-bind, Quiet-KeepsLedger}
use edx_enterprise_subsidy.ContentMetadata.{find_cached}
use edx_enterprise_subsidy.ContentMetadata.Caching.{get_geag_variant_id-Quiet}
use edx_enterprise_subsidy.ApiClient.{get_enterprise_customer_data}
use edx_enterprise_subsidy.ApiClient.Quiet.{subsidy_of-Quiet, get_enterprise_customer_data-Quiet}
use edx_enterprise_subsidy.Fulfillment.{
  variant_id_of, remember_customer, customer_unless_cached, cached_customer_data, customer_data_of,
  validate, create_allocation_payload, save_fulfillment_reference, can_fulfill, fulfill_in_geag,
  fulfill, order_uuid, cancel_external,
}

module _ (env : Env) where
  variant_id_of-Quiet : (t : Transaction) → Quiet (variant_id_of env t)
  unfolding variant_id_of
  variant_id_of-Quiet t = search (quiet_rules, subsidy_of-Quiet, get_geag_variant_id-Quiet)

  remember_customer-Quiet :
      (key : CacheKey) (customer : CustomerData) → Quiet (remember_customer env key customer)
  remember_customer-Quiet key customer = record {
    at = λ w. record {
      transactions = refl;
      reversals = refl;
      references = refl;
      deposits = refl;
      subsidies = refl;
      events = refl;
    };
  }

  customer_unless_cached-Quiet :
      (cached : Option CustomerData) (key : CacheKey) (fetch : Exec CustomerData)
      → Quiet fetch
      → Quiet (customer_unless_cached env cached key fetch)
  customer_unless_cached-Quiet none key fetch h = search (quiet_rules, remember_customer-Quiet)
  customer_unless_cached-Quiet (some customer) key fetch h = search quiet_rules

  cached_customer_data-Quiet :
      (customer transaction_uuid : ℕ) → Quiet (cached_customer_data env customer transaction_uuid)
  unfolding cached_customer_data
  cached_customer_data-Quiet customer transaction_uuid = record {
    at = λ w.
        let key = CacheKey.enterprise_customer customer transaction_uuid in
        let cached = if env.is_cached w key then find_cached key w.customer_cache else none in
        (customer_unless_cached-Quiet cached key (get_enterprise_customer_data env customer)
            (get_enterprise_customer_data-Quiet env customer)).at
          w;
  }

  customer_data_of-Quiet : (t : Transaction) → Quiet (customer_data_of env t)
  unfolding customer_data_of
  customer_data_of-Quiet t = search (quiet_rules, subsidy_of-Quiet, cached_customer_data-Quiet)

  validate-Quiet : (t : Transaction) → Quiet (validate env t)
  unfolding validate
  validate-Quiet t = search (quiet_rules, customer_data_of-Quiet)

  create_allocation_payload-Quiet : (t : Transaction) → Quiet (create_allocation_payload env t)
  unfolding create_allocation_payload
  create_allocation_payload-Quiet t =
      search (quiet_rules, subsidy_of-Quiet, variant_id_of-Quiet, customer_data_of-Quiet)

  pub can_fulfill-Quiet : (t : Transaction) → Quiet (can_fulfill env t)
  unfolding can_fulfill
  can_fulfill-Quiet t = search (quiet_rules, variant_id_of-Quiet)

  save_fulfillment_reference-KeepsLedger :
      (t : Transaction) (id : String) → KeepsLedger (save_fulfillment_reference env t id)
  unfolding save_fulfillment_reference
  save_fulfillment_reference-KeepsLedger t id = record {
    at = λ w. record { transactions = refl; reversals = refl; events = refl };
  }

  pub fulfill-KeepsLedger : (t : Transaction) → KeepsLedger (fulfill env t)
  unfolding fulfill fulfill_in_geag
  fulfill-KeepsLedger t = KeepsLedger-bind _ _ (Quiet-KeepsLedger _ (validate-Quiet t)) λ _.
      KeepsLedger-bind _ _ (Quiet-KeepsLedger _ (create_allocation_payload-Quiet t)) λ payload.
        KeepsLedger-bind _ _ (Quiet-KeepsLedger (fulfill_in_geag env payload) (search quiet_rules))
          λ response.
            KeepsLedger-bind _ _ (Quiet-KeepsLedger _ (Quiet-lift (order_uuid response)))
              λ id. save_fulfillment_reference-KeepsLedger t id

  pub cancel_external-Quiet :
      (reference : ExternalTransactionReference) → Quiet (cancel_external env reference)
  unfolding cancel_external
  cancel_external-Quiet reference = search quiet_rules
