-- ===== src/Api/ContentView.antt =====
-- ContentMetadataViewSet of apps/api/v1/views/content_metadata.py, with
-- `require_at_least_one_query_parameter` of api/v1/decorators.py. The cache of whole pages is left
-- out, and so is the flag `skip_customer_fetch` of the request to the catalog.
use edx_enterprise_subsidy.Common.{
  ℕ, ◌≡◌, ◌≢◌, refl, sym, ap, ◌∙◌, String, Bool, true, false, Option, none, some, List, [], ◌∷◌,
  if◌then◌else◌, eq_iff, arith,
}
use edx_enterprise_subsidy.Service.{
  Env, World, Result, ok, err, Exec, Exception, pure, raise, catch, proceed, ◌>>=◌,
}
use edx_enterprise_subsidy.ContentMetadata.{SummaryData, get_content_summary}
use edx_enterprise_subsidy.Access.{Rbac, Permission, has_perm, uuid_parameter}

-- a summary; the status of the catalog's error; and the framework's refusals 403 and 400
pub data ContentResponse : Type 0 where
  content : SummaryData → ContentResponse
  error : ℕ → ContentResponse
  forbidden : ContentResponse
  bad_request : ContentResponse

-- `query_params.get`
abbrev pub last_value : List String → Option String
last_value [] = none
last_value (text ∷ []) = some text
last_value (text ∷ other ∷ rest) = last_value (other ∷ rest)

-- the `except` clause of the view: 404 and every other status are passed on
abbrev on_catalog_error : Exception → Exec ContentResponse
on_catalog_error (Exception.http_error code) = pure (ContentResponse.error code)
on_catalog_error e = raise e

-- `UUID` where it does not raise, the number of the uuid that a text in a URL stands for, and whether
-- the user is granted the permission in the context "None"
module _ (env : Env) (rbac : Rbac) (parse_uuid : String → Option ℕ) (id_of : String → ℕ)
    (none_granted : Bool) where
  -- the body of `get`
  unfoldable pub content_metadata_get : ℕ → String → Exec ContentResponse
  content_metadata_get customer content_identifier =
      catch
        (get_content_summary env customer content_identifier >>= λ summary.
          pure (ContentResponse.content summary))
        on_catalog_error

  -- the decorator, with the values of `enterprise_customer_uuid` in the query
  unfoldable pub require_at_least_one_query_parameter : List String → String → Exec ContentResponse
  require_at_least_one_query_parameter [] content_identifier = pure ContentResponse.bad_request
  require_at_least_one_query_parameter (text ∷ rest) content_identifier =
      content_metadata_get (id_of text) content_identifier

  -- `get_permission_object`, checked for the permission
  abbrev is_permitted : Option ℕ → Bool
  is_permitted none = none_granted
  is_permitted (some customer) = has_perm rbac (some customer) Permission.can_read_content_metadata

  abbrev permit : Result (Option ℕ) → Exec ContentResponse → Exec ContentResponse
  permit (err e) view = pure ContentResponse.bad_request
  permit (ok context) view = if is_permitted context then view else pure ContentResponse.forbidden

  unfoldable pub content_metadata_view : List String → String → Exec ContentResponse
  unfolding require_at_least_one_query_parameter content_metadata_get
  content_metadata_view values content_identifier =
      permit (uuid_parameter parse_uuid (last_value values))
        (require_at_least_one_query_parameter values content_identifier)

  -- what `get` makes of what the fetch gives
  abbrev respond : Result SummaryData × World → Result ContentResponse × World
  respond (r, w) =
      catch (λ u. proceed r (λ summary. pure (ContentResponse.content summary)) u) on_catalog_error
        w

  served :
      (r : Result SummaryData) (w : World) (summary : SummaryData) (v : World)
      → respond (r, w) ≡ (ok (ContentResponse.content summary), v)
      → (r ≡ ok summary) × (w ≡ v)
  served (ok d) w summary v h = (cc, cc)
  served (err (Exception.http_error code)) w summary v h = cc
  served (err e) w summary v h = cc

  granted :
      (b : Bool) (view : Exec ContentResponse) (w : World) (summary : SummaryData) (v : World)
      → (if b then view else pure ContentResponse.forbidden) w
        ≡ (ok (ContentResponse.content summary), v)
      → (b ≡ true) × (view w ≡ (ok (ContentResponse.content summary), v))
  granted true view w summary v h = (refl, h)
  granted false view w summary v h = cc

  context_parsed :
      (text : String)
      → text ≢ ""
      → parse_uuid text ≡ some (id_of text)
      → uuid_parameter parse_uuid (some text) ≡ ok (some (id_of text))
  context_parsed text non_empty parsed =
      let empty = (eq_iff text "").0 in ground (arith, empty, non_empty, parsed)

  summarised :
      (customer : ℕ) (content_identifier : String) (w : World) (summary : SummaryData) (v : World)
      → content_metadata_get customer content_identifier w
        ≡ (ok (ContentResponse.content summary), v)
      → get_content_summary env customer content_identifier w ≡ (ok summary, v)
  unfolding content_metadata_get
  summarised customer content_identifier w summary v h =
      let p = get_content_summary env customer content_identifier w in
      let (is_ok, same_world) = served p.0 p.1 summary v h in
      ap (λ r. (r, p.1)) is_ok ∙ ap (λ u. (ok summary, u)) same_world

  -- A user whom the endpoint of content metadata answers with a summary, on one value of
  -- `enterprise_customer_uuid` that is a uuid, has the permission to read the metadata of this
  -- enterprise, and the summary is what `get_content_summary` gives for this enterprise.
  pub content_metadata_view_serves :
      (text content_identifier : String) (w : World) (summary : SummaryData) (v : World)
      → text ≢ ""
      → parse_uuid text ≡ some (id_of text)
      → content_metadata_view (text ∷ []) content_identifier w
        ≡ (ok (ContentResponse.content summary), v)
      → (has_perm rbac (some (id_of text)) Permission.can_read_content_metadata ≡ true)
        × (get_content_summary env (id_of text) content_identifier w ≡ (ok summary, v))
  unfolding content_metadata_view require_at_least_one_query_parameter content_metadata_get
  content_metadata_view_serves text content_identifier w summary v non_empty parsed h =
      let (permitted, answered) =
        granted _ (content_metadata_get (id_of text) content_identifier) w summary v (
          ap (λ context. permit context (content_metadata_get (id_of text) content_identifier) w)
            (sym (context_parsed text non_empty parsed))
          ∙ h) in
      (permitted, summarised (id_of text) content_identifier w summary v answered)
