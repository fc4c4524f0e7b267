-- ===== src/Fulfillment.antt =====
-- `GEAGFulfillmentHandler` of apps/fulfillment/api.py. A price is a number of cents here, where the
-- code sends dollars as a float.
pub mod Quiet
pub mod Validation
mod Text
pub use Text.{python_lower}
use edx_enterprise_subsidy.Common.{
  ℕ, String, Bool, true, false, not, ◌&&◌, Option, none, some, List, [], ◌∷◌, ◌++◌, str_eq,
  if◌then◌else◌, truthy_text,
}
use edx_enterprise_subsidy.Common.Int.{ℤ, pos, neg}
use edx_enterprise_subsidy.Schema.Ledger.{
  Transaction, ExternalTransactionReference, Json, Metadata, metadata_get, truthy_json,
}
use edx_enterprise_subsidy.Schema.Remote.{
  Request, CustomerData, AllocationPayload, AllocationResponse,
}
use edx_enterprise_subsidy.Service.{
  Env, World, Result, ok, err, CacheKey, Exec, Exception, pure, raise, gets, lift, proceed, ◌>>=◌,
  ◌>>◌, modify, call,
}
use edx_enterprise_subsidy.ContentMetadata.{find_cached, get_geag_variant_id}
use edx_enterprise_subsidy.ApiClient.{subsidy_of, get_enterprise_customer_data}

-- EXTERNAL_FULFILLMENT_PROVIDER_SLUG
abbrev pub external_fulfillment_provider_slug : String
external_fulfillment_provider_slug = "geag"

abbrev pub consent_field : String
consent_field = "geag_data_share_consent"

abbrev pub required_metadata_fields : List String
required_metadata_fields =
    "geag_first_name" ∷ "geag_last_name" ∷ "geag_email" ∷ "geag_date_of_birth"
    ∷ "geag_terms_accepted_at" ∷ consent_field ∷ []

-- the body of the loop of `_validate`, where `others` is what the fields after this one give
unfoldable pub validate_field : Bool → Metadata → String → Result (Unit {0}) → Result (Unit {0})
validate_field enable_consent metadata field others =
    if str_eq field consent_field && not enable_consent
    then others
    else if truthy_json (metadata_get metadata field Json.null)
    then others
    else err Exception.invalid_fulfillment_metadata

unfoldable pub validate_fields : Bool → Metadata → List String → Result (Unit {0})
unfolding validate_field
validate_fields enable_consent metadata [] = ok tt
validate_fields enable_consent metadata (field ∷ rest) =
    let others = validate_fields enable_consent metadata rest in
    validate_field enable_consent metadata field others

unfoldable pub get_geag_transaction_price : Transaction → ℤ
get_geag_transaction_price transaction = neg transaction.quantity

-- The program fulfills transactions that have a content key.
abbrev text_or_empty : Option String → String
text_or_empty none = ""
text_or_empty (some s) = s

-- `raise_for_status`, and the test on `orderUuid`
abbrev pub order_uuid : AllocationResponse → Result String
order_uuid response =
    if response.is_ok
    then elim response.order_uuid [
      | none ↦ err Exception.fulfillment
      | some id ↦ if str_eq id "" then err Exception.fulfillment else ok id
    ]
    else err Exception.fulfillment

module _ (env : Env) where
  unfoldable pub variant_id_of : Transaction → Exec (Option String)
  variant_id_of transaction = do
    subsidy ← subsidy_of transaction
    get_geag_variant_id env subsidy.enterprise_customer_uuid (text_or_empty transaction.content_key)

  abbrev pub remember_customer : CacheKey → CustomerData → Exec CustomerData
  remember_customer key customer = do
    modify (λ w. record w { customer_cache = (key, customer) ∷ w.customer_cache })
    pure customer

  abbrev pub customer_unless_cached :
      Option CustomerData → CacheKey → Exec CustomerData → Exec CustomerData
  customer_unless_cached (some customer) key fetch = pure customer
  customer_unless_cached none key fetch = fetch >>= remember_customer key

  unfoldable pub cached_customer_data : ℕ → ℕ → Exec CustomerData
  cached_customer_data customer transaction_uuid w =
      let key = CacheKey.enterprise_customer customer transaction_uuid in
      let cached = if env.is_cached w key then find_cached key w.customer_cache else none in
      customer_unless_cached cached key (get_enterprise_customer_data env customer) w

  -- `_get_enterprise_customer_data`
  unfoldable pub customer_data_of : Transaction → Exec CustomerData
  unfolding cached_customer_data
  customer_data_of transaction = do
    subsidy ← subsidy_of transaction
    cached_customer_data subsidy.enterprise_customer_uuid transaction.uuid

  unfoldable pub validate : Transaction → Exec (Unit {0})
  validate transaction = do
    customer ← customer_data_of transaction
    lift (
        validate_fields customer.enable_data_sharing_consent transaction.metadata
          required_metadata_fields)

  -- the literal of `_create_allocation_payload`
  unfoldable pub allocation_payload :
      Transaction → ℕ → Option String → Option String → AllocationPayload
  unfolding get_geag_transaction_price
  allocation_payload transaction customer variant_id org_id =
      let field = λ (name : String). metadata_get transaction.metadata name Json.null in
      record {
        payment_reference = transaction.uuid;
        enterprise_customer_uuid = customer;
        currency = "USD";
        product_id = variant_id;
        quantity = 1;
        normal_price = get_geag_transaction_price transaction;
        discount = pos 0;
        final_price = get_geag_transaction_price transaction;
        first_name = field "geag_first_name";
        last_name = field "geag_last_name";
        email = field "geag_email";
        date_of_birth = field "geag_date_of_birth";
        terms_accepted_at = field "geag_terms_accepted_at";
        data_share_consent =
            python_lower (metadata_get transaction.metadata consent_field (Json.text "true"));
        org_id = org_id;
      }

  unfoldable pub create_allocation_payload : Transaction → Exec AllocationPayload
  create_allocation_payload transaction = do
    subsidy ← subsidy_of transaction
    variant_id ← variant_id_of transaction
    customer ← customer_data_of transaction
    pure (
        allocation_payload transaction subsidy.enterprise_customer_uuid variant_id
          customer.auth_org_id)

  abbrev new_reference : Transaction → String → ExternalTransactionReference
  new_reference transaction id = record {
    transaction_uuid = transaction.uuid;
    provider_slug = external_fulfillment_provider_slug;
    external_reference_id = id;
  }

  unfoldable pub save_fulfillment_reference :
      Transaction → String → Exec ExternalTransactionReference
  save_fulfillment_reference transaction id = do
    modify (λ w. record w { references = w.references ++ new_reference transaction id ∷ [] })
    pure (new_reference transaction id)

  unfoldable pub can_fulfill : Transaction → Exec Bool
  can_fulfill transaction = do variant_id ← variant_id_of transaction; pure (truthy_text variant_id)

  unfoldable pub fulfill_in_geag : AllocationPayload → Exec AllocationResponse
  fulfill_in_geag payload = call (Request.create_allocation payload) env.create_allocation

  unfoldable pub fulfill : Transaction → Exec ExternalTransactionReference
  unfolding fulfill_in_geag save_fulfillment_reference
  fulfill transaction = do
    validate transaction
    payload ← create_allocation_payload transaction
    response ← fulfill_in_geag payload
    id ← lift (order_uuid response)
    save_fulfillment_reference transaction id

  -- `GEAGFulfillmentHandler.cancel_fulfillment`
  unfoldable pub cancel_external : ExternalTransactionReference → Exec (Unit {0})
  cancel_external reference =
      call (Request.cancel_allocation reference.external_reference_id) env.cancel_allocation
