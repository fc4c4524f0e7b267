-- ===== src/ContentMetadata.antt =====
-- apps/content_metadata/api.py: prices, course runs and variants read out of the catalog's metadata,
-- and its cached fetches. `Decimal` is exact here: the product with 100 is rounded to 28 digits only
-- by Python, which moves no price of fewer digits.
mod Extract
pub mod Caching
pub use Extract.{
  ProductSource, CourseMode, mode_value, product_source_for_content, mode_for_content, SummaryData,
}
unfoldable pub use Extract.{
  to_cents, entitlement_price, price_for_content_fallback, price_for_content, find_run,
  get_course_run, get_geag_variant_id_for_content, enroll_by_date_for_content,
  summary_data_for_content, default_content_price, empty_run, same_text,
}
use edx_enterprise_subsidy.Common.{ℕ, String, Option, none, some, List, [], ◌∷◌, if◌then◌else◌}
use edx_enterprise_subsidy.Schema.Catalog.{ContentData}
use edx_enterprise_subsidy.Schema.Remote.{Request}
use edx_enterprise_subsidy.Service.{
  Env, World, Result, ok, err, CacheKey, same_key, Exec, Exception, pure, raise, gets, proceed,
  ◌>>=◌, ◌>>◌, modify, call,
}

abbrev pub find_cached {ℓ} : {V : Type ℓ} → CacheKey → List (CacheKey × V) → Option V
find_cached key [] = none
find_cached key ((k, v) ∷ cache) =
    let rest = find_cached key cache in if same_key k key then some v else rest

-- content_metadata_for_customer_cache_key, content_metadata_cache_key
abbrev pub content_metadata_for_customer_cache_key : ℕ → String → CacheKey
content_metadata_for_customer_cache_key = CacheKey.customer_content

abbrev pub content_metadata_cache_key : String → CacheKey
content_metadata_cache_key = CacheKey.content_metadata

module _ (env : Env) where
  -- TieredCache.get_cached_response
  unfoldable pub cached_content : CacheKey → World → Option ContentData
  cached_content key w = if env.is_cached w key then find_cached key w.content_cache else none

  -- TieredCache.set_all_tiers
  abbrev pub store_content : CacheKey → ContentData → World → World
  store_content key content w = record w { content_cache = (key, content) ∷ w.content_cache }

  -- EnterpriseCatalogApiClient.get_content_metadata
  abbrev first_result : List ContentData → Option ContentData
  first_result [] = none
  first_result (content ∷ _) = some content

  unfoldable pub client_get_content_metadata : String → Exec (Option ContentData)
  client_get_content_metadata content_identifier = do
    results ← call (Request.content_metadata content_identifier) env.content_metadata
    pure (first_result results)

  -- EnterpriseCatalogApiClientV2.get_content_metadata_for_customer
  unfoldable pub client_get_content_metadata_for_customer : ℕ → String → Exec ContentData
  client_get_content_metadata_for_customer customer content_identifier =
      call (Request.customer_content_metadata customer content_identifier)
        env.customer_content_metadata

  abbrev pub remember : CacheKey → Option ContentData → Exec (Option ContentData)
  remember key none = pure none
  remember key (some content) =
      if content.is_empty
      then pure (some content)
      else (do modify (store_content key content); pure (some content))

  -- a fetch past the cache, whose result is cached if it is truthy
  abbrev pub fetch_unless_cached :
      Option ContentData → CacheKey → Exec (Option ContentData) → Exec (Option ContentData)
  fetch_unless_cached (some content) key fetch = pure (some content)
  fetch_unless_cached none key fetch = fetch >>= remember key

  unfoldable pub get_content_metadata : String → Exec (Option ContentData)
  get_content_metadata content_identifier w =
      let key = content_metadata_cache_key content_identifier in
      fetch_unless_cached (cached_content key w) key
        (client_get_content_metadata content_identifier) w

  abbrev pub remember_content : CacheKey → ContentData → Exec ContentData
  remember_content key content =
      if content.is_empty
      then pure content
      else (do modify (store_content key content); pure content)

  abbrev pub fetch_content_unless_cached :
      Option ContentData → CacheKey → Exec ContentData → Exec ContentData
  fetch_content_unless_cached (some content) key fetch = pure content
  fetch_content_unless_cached none key fetch = fetch >>= remember_content key

  unfoldable pub get_content_metadata_for_customer : ℕ → String → Exec ContentData
  get_content_metadata_for_customer customer content_identifier w =
      let key = content_metadata_for_customer_cache_key customer content_identifier in
      fetch_content_unless_cached (cached_content key w) key
        (client_get_content_metadata_for_customer customer content_identifier) w

  unfoldable pub get_content_summary : ℕ → String → Exec SummaryData
  get_content_summary customer content_identifier = do
    course_details ← get_content_metadata_for_customer customer content_identifier
    pure (summary_data_for_content content_identifier course_details)

  unfoldable pub get_course_price : ℕ → String → Exec ℕ
  get_course_price customer content_identifier = do
    course_details ← get_content_metadata_for_customer customer content_identifier
    pure (price_for_content course_details (get_course_run content_identifier course_details))

  unfoldable get_product_source : ℕ → String → Exec ProductSource
  get_product_source customer content_identifier = do
    course_details ← get_content_metadata_for_customer customer content_identifier
    pure (product_source_for_content course_details)

  unfoldable pub get_geag_variant_id : ℕ → String → Exec (Option String)
  get_geag_variant_id customer content_identifier = do
    summary ← get_content_summary customer content_identifier
    pure summary.geag_variant_id
