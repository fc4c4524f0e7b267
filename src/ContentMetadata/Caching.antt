-- ===== src/ContentMetadata/Caching.antt =====
-- The cached fetches touch no table, and a cached answer is returned without a new request.
use edx_enterprise_subsidy.Common.{
  ℕ, List, ◌∷◌, String, ◌≡◌, refl, true, false, Option, none, some, arith,
}
use text.Mathlib.TextPositions.{eq_refl}
use edx_enterprise_subsidy.Schema.Catalog.{ContentData}
use edx_enterprise_subsidy.Service.{Env, World, same_key, CacheKey, Exec, ok, modify, call}
use edx_enterprise_subsidy.Schema.Remote.{Request}
use edx_enterprise_subsidy.Service.Asking.{Asking, Asking-bind, Asking-call, asking_rules}
use edx_enterprise_subsidy.Service.Quiet.{Quiet, quiet_rules}
use edx_enterprise_subsidy.ContentMetadata.{
  cached_content, remember_content, remember, fetch_content_unless_cached, fetch_unless_cached,
  client_get_content_metadata_for_customer, client_get_content_metadata,
  get_content_metadata_for_customer, get_content_metadata, get_content_summary, get_course_price,
  get_geag_variant_id, content_metadata_for_customer_cache_key, content_metadata_cache_key,
  find_cached, store_content,
}

module _ (env : Env) where
  store-Quiet :
      (key : CacheKey) (content : ContentData) → Quiet (modify (store_content env key content))
  store-Quiet key content = record {
    at = λ w. record {
      transactions = refl;
      reversals = refl;
      references = refl;
      deposits = refl;
      subsidies = refl;
      events = refl;
    };
  }

  remember_content-Quiet :
      (key : CacheKey) (content : ContentData) → Quiet (remember_content env key content)
  remember_content-Quiet key content = search (quiet_rules, store-Quiet)

  fetch_content-Quiet :
      (cached : Option ContentData) (key : CacheKey) (fetch : Exec ContentData)
      → Quiet fetch
      → Quiet (fetch_content_unless_cached env cached key fetch)
  fetch_content-Quiet none key fetch h = search (quiet_rules, remember_content-Quiet)
  fetch_content-Quiet (some content) key fetch h = search quiet_rules

  get_content_metadata_for_customer-Quiet :
      (customer : ℕ) (id : String) → Quiet (get_content_metadata_for_customer env customer id)
  unfolding get_content_metadata_for_customer client_get_content_metadata_for_customer
  get_content_metadata_for_customer-Quiet customer id = record {
    at = λ w.
        let key = content_metadata_for_customer_cache_key customer id in
        (fetch_content-Quiet (cached_content env key w) key
            (client_get_content_metadata_for_customer env customer id) (search quiet_rules)).at
          w;
  }

  remember-Quiet :
      (key : CacheKey) (content : Option ContentData) → Quiet (remember env key content)
  remember-Quiet key none = search quiet_rules
  remember-Quiet key (some content) = search (quiet_rules, store-Quiet)

  fetch-Quiet :
      (cached : Option ContentData) (key : CacheKey) (fetch : Exec (Option ContentData))
      → Quiet fetch
      → Quiet (fetch_unless_cached env cached key fetch)
  fetch-Quiet none key fetch h = search (quiet_rules, remember-Quiet)
  fetch-Quiet (some content) key fetch h = search quiet_rules

  client_get_content_metadata-Quiet : (id : String) → Quiet (client_get_content_metadata env id)
  unfolding client_get_content_metadata
  client_get_content_metadata-Quiet id = search quiet_rules

  pub get_content_metadata-Quiet : (id : String) → Quiet (get_content_metadata env id)
  unfolding get_content_metadata
  get_content_metadata-Quiet id = record {
    at = λ w.
        let key = content_metadata_cache_key id in
        (fetch-Quiet (cached_content env key w) key (client_get_content_metadata env id)
            (client_get_content_metadata-Quiet id)).at
          w;
  }

  pub get_content_summary-Quiet :
      (customer : ℕ) (id : String) → Quiet (get_content_summary env customer id)
  unfolding get_content_summary
  get_content_summary-Quiet customer id =
      search (quiet_rules, get_content_metadata_for_customer-Quiet)

  pub get_course_price-Quiet :
      (customer : ℕ) (id : String) → Quiet (get_course_price env customer id)
  unfolding get_course_price
  get_course_price-Quiet customer id = search (quiet_rules, get_content_metadata_for_customer-Quiet)

  pub get_geag_variant_id-Quiet :
      (customer : ℕ) (id : String) → Quiet (get_geag_variant_id env customer id)
  unfolding get_geag_variant_id
  get_geag_variant_id-Quiet customer id = search (quiet_rules, get_content_summary-Quiet)

-- the metadata of content is queried, and nothing is asked to change
module _ (env : Env) where
  store-Asking :
      (key : CacheKey) (content : ContentData) → Asking (modify (store_content env key content))
  store-Asking key content = record { at = λ w. refl }

  remember-Asking :
      (key : CacheKey) (content : Option ContentData) → Asking (remember env key content)
  remember-Asking key none = search asking_rules
  remember-Asking key (some content) = search (asking_rules, store-Asking)

  client_get_content_metadata-Asking : (id : String) → Asking (client_get_content_metadata env id)
  unfolding client_get_content_metadata
  client_get_content_metadata-Asking id =
      Asking-bind (call (Request.content_metadata id) env.content_metadata) _
        (Asking-call (Request.content_metadata id) env.content_metadata refl)
        λ results. search asking_rules

  fetch-Asking :
      (cached : Option ContentData) (key : CacheKey) (fetch : Exec (Option ContentData))
      → Asking fetch
      → Asking (fetch_unless_cached env cached key fetch)
  fetch-Asking none key fetch h = search (asking_rules, remember-Asking)
  fetch-Asking (some content) key fetch h = search asking_rules

  pub get_content_metadata-Asking : (id : String) → Asking (get_content_metadata env id)
  unfolding get_content_metadata
  get_content_metadata-Asking id = record {
    at = λ w.
        let key = content_metadata_cache_key id in
        (fetch-Asking (cached_content env key w) key (client_get_content_metadata env id)
            (client_get_content_metadata-Asking id)).at
          w;
  }

  remember_content-Asking :
      (key : CacheKey) (content : ContentData) → Asking (remember_content env key content)
  remember_content-Asking key content = search (asking_rules, store-Asking)

  fetch_content-Asking :
      (cached : Option ContentData) (key : CacheKey) (fetch : Exec ContentData)
      → Asking fetch
      → Asking (fetch_content_unless_cached env cached key fetch)
  fetch_content-Asking none key fetch h = search (asking_rules, remember_content-Asking)
  fetch_content-Asking (some content) key fetch h = search asking_rules

  get_content_metadata_for_customer-Asking :
      (customer : ℕ) (id : String) → Asking (get_content_metadata_for_customer env customer id)
  unfolding get_content_metadata_for_customer client_get_content_metadata_for_customer
  get_content_metadata_for_customer-Asking customer id = record {
    at = λ w.
        let key = content_metadata_for_customer_cache_key customer id in
        (fetch_content-Asking (cached_content env key w) key
            (client_get_content_metadata_for_customer env customer id)
            (Asking-call (Request.customer_content_metadata customer id)
              env.customer_content_metadata refl)).at
          w;
  }

  pub get_content_summary-Asking :
      (customer : ℕ) (id : String) → Asking (get_content_summary env customer id)
  unfolding get_content_summary
  get_content_summary-Asking customer id =
      search (asking_rules, get_content_metadata_for_customer-Asking)

same_key_refl : (key : CacheKey) → same_key key key ≡ true
same_key_refl (CacheKey.content_metadata k) = eq_refl k
same_key_refl (CacheKey.customer_content c k) = ground (arith, eq_refl k)
same_key_refl (CacheKey.enterprise_customer c t) = ground arith
same_key_refl (CacheKey.lms_user u) = ground arith

find_cached-head {ℓ} :
    {V : Type ℓ} (key : CacheKey) (v : V) (cache : List (CacheKey × V))
    → find_cached key ((key, v) ∷ cache) ≡ some v
find_cached-head key v cache = rw same_key_refl

module _ (env : Env) (customer : ℕ) (id : String) where
  cached_of_fetch :
      (w : World) (content : ContentData)
      → let key = content_metadata_for_customer_cache_key customer id in
        let (r, w') = get_content_metadata_for_customer env customer id w in
        r ≡ ok content → content.is_empty ≡ false → find_cached key w'.content_cache ≡ some content
  unfolding get_content_metadata_for_customer cached_content
      client_get_content_metadata_for_customer
  cached_of_fetch w content h truthy =
      ground (arith, h, truthy, same_key_refl (content_metadata_for_customer_cache_key customer id))

  fetch_of_cached :
      (w : World) (content : ContentData)
      → let key = content_metadata_for_customer_cache_key customer id in
        env.is_cached w key ≡ true
        → find_cached key w.content_cache ≡ some content
        → get_content_metadata_for_customer env customer id w ≡ (ok content, w)
  unfolding get_content_metadata_for_customer cached_content
  fetch_of_cached w content alive found = rw (alive, found)

  -- Once a customer's content was fetched and was not empty, and for as long as the cache keeps the entry, fetching it
  -- again returns the same metadata, sends no request and changes nothing.
  pub get_content_metadata_for_customer_again :
      (w : World) (content : ContentData)
      → let (r, w') = get_content_metadata_for_customer env customer id w in
        r ≡ ok content
        → content.is_empty ≡ false
        → env.is_cached w' (content_metadata_for_customer_cache_key customer id) ≡ true
        → get_content_metadata_for_customer env customer id w' ≡ (ok content, w')
  get_content_metadata_for_customer_again w content h truthy alive =
      fetch_of_cached (get_content_metadata_for_customer env customer id w).1 content alive
        (cached_of_fetch w content h truthy)
