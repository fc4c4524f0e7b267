-- ===== src/Fulfillment/Validation.antt =====
-- What GEAG asks of the metadata of a transaction: `_validate` and `fulfill` of apps/fulfillment/api.py.
use edx_enterprise_subsidy.Common.{
  ◌≡◌, refl, ◌∙◌, ◌⊎◌, inl, inr, String, Bool, true, false, List, [], ◌∷◌, All, eq_iff, arith,
}
use edx_enterprise_subsidy.Schema.Ledger.{Transaction, Json, Metadata, metadata_get, truthy_json}
use edx_enterprise_subsidy.Schema.Remote.{CustomerData}
use edx_enterprise_subsidy.Service.{Env, World, Result, ok, err, Exception}
use edx_enterprise_subsidy.Fulfillment.{
  consent_field, required_metadata_fields, validate_field, validate_fields, customer_data_of,
  validate, fulfill,
}

-- a field that the metadata holds, or the consent of a customer who does not ask for it
abbrev pub Given : Bool → Metadata → String → Type 0
Given enable_consent metadata name =
    (name ≡ consent_field × enable_consent ≡ false)
    ⊎ (truthy_json (metadata_get metadata name Json.null) ≡ true)

abbrev pub Complete : CustomerData → Transaction → Type 0
Complete customer t =
    All (Given customer.enable_data_sharing_consent t.metadata) required_metadata_fields

module _ (enable : Bool) (metadata : Metadata) where
  passed_or_refused :
      (field : String) (others : Result (Unit {0}))
      → (validate_field enable metadata field others ≡ err Exception.invalid_fulfillment_metadata)
        ⊎ (Given enable metadata field × (validate_field enable metadata field others ≡ others))
  unfolding validate_field
  passed_or_refused field others =
      let named = (eq_iff field consent_field).0 in ground (arith, named)

  Given-or_refused :
      (fields : List String)
      → (validate_fields enable metadata fields ≡ err Exception.invalid_fulfillment_metadata)
        ⊎ All (Given enable metadata) fields
  unfolding validate_fields validate_field
  Given-or_refused [] = inr tt
  Given-or_refused (field ∷ rest) =
      elim (passed_or_refused field (validate_fields enable metadata rest))
        as (λ _.
          (validate_fields enable metadata (field ∷ rest)
            ≡ err Exception.invalid_fulfillment_metadata)
          ⊎ All (Given enable metadata) (field ∷ rest)) [
            | inl h ↦ inl h
            | inr (given, same) ↦ elim (Given-or_refused rest) [
              | inl h ↦ inl (same ∙ h)
              | inr h ↦ inr (given, h)
            ]
          ]

module _ (env : Env) (t : Transaction) (w : World) (customer : CustomerData) (v : World)
    (answer : customer_data_of env t w ≡ (ok customer, v)) where
  validate_answers : validate env t w ≡ (
    validate_fields customer.enable_data_sharing_consent t.metadata required_metadata_fields,
    v,
  )
  unfolding validate
  validate_answers = rw answer refl

  -- For the customer of the transaction, as the enterprise service gives it: if the metadata does not
  -- hold every field that GEAG asks for, `fulfill` raises InvalidFulfillmentMetadataException and does
  -- nothing more, so that nothing is allocated.
  pub fulfill_incomplete :
      ¬ Complete customer t → fulfill env t w ≡ (err Exception.invalid_fulfillment_metadata, v)
  unfolding fulfill
  fulfill_incomplete incomplete =
      let outcome =
        Given-or_refused customer.enable_data_sharing_consent t.metadata required_metadata_fields in
      elim outcome [
        | inl refused ↦ rw (validate_answers, refused) refl
        | inr complete ↦ absurd (incomplete complete)
      ]
