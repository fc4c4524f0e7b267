-- ===== src/Tests/Fulfilling.antt =====
-- The theorem on incomplete metadata at a concrete transaction.
use edx_enterprise_subsidy.Common.{◌≡◌, refl, inl, inr, some, false, [], eq_iff}
use edx_enterprise_subsidy.Schema.Ledger.{Transaction}
use edx_enterprise_subsidy.Schema.Remote.{CustomerData}
use edx_enterprise_subsidy.Service.{World, err, ok, Exception}
use edx_enterprise_subsidy.ApiClient.{get_enterprise_customer_data, subsidy_of}
use edx_enterprise_subsidy.Fulfillment.{
  consent_field, customer_data_of, cached_customer_data, fulfill,
}
use edx_enterprise_subsidy.Fulfillment.Validation.{Complete, fulfill_incomplete}
use edx_enterprise_subsidy.Samples.{sample_env, sample_pending, sample_world}

abbrev empty_handed : Transaction
empty_handed = record sample_pending { metadata = [] }

abbrev sample_customer : CustomerData
sample_customer = record { auth_org_id = some "org"; enable_data_sharing_consent = false }

abbrev asked_customer : World
unfolding customer_data_of cached_customer_data
asked_customer = (customer_data_of sample_env empty_handed sample_world).1

asked : customer_data_of sample_env empty_handed sample_world ≡ (ok sample_customer, asked_customer)
unfolding customer_data_of cached_customer_data get_enterprise_customer_data subsidy_of
asked = refl

nothing_given : ¬ Complete sample_customer empty_handed
nothing_given h = elim (h.0) [
  | inl named ↦ let same = (eq_iff "geag_first_name" consent_field).1 named.0 in cc
  | inr held ↦ cc
]

fulfill_incomplete_example :
    fulfill sample_env empty_handed sample_world
    ≡ (err Exception.invalid_fulfillment_metadata, asked_customer)
fulfill_incomplete_example =
    fulfill_incomplete sample_env empty_handed sample_world sample_customer asked_customer asked
      nothing_given
