-- ===== src/Tests/ContentView.antt =====
-- The theorem on the endpoint of content metadata at a concrete request.
use edx_enterprise_subsidy.Common.{
  ℕ, ◌≡◌, ◌≢◌, refl, String, true, false, ◌==◌, eq_iff, Option, none, some, str_eq, if◌then◌else◌,
}
use edx_enterprise_subsidy.Service.{World, ok}
use edx_enterprise_subsidy.ContentMetadata.{
  SummaryData, cached_content, get_content_summary, get_content_metadata_for_customer,
  client_get_content_metadata_for_customer, summary_data_for_content,
}
use edx_enterprise_subsidy.Access.{
  Rbac, Permission, has_perm, has_learner_level_access, _user_has_explicit_access_via_feature_role,
  _user_has_implicit_access_via_feature_role,
}
use edx_enterprise_subsidy.Api.ContentView.{content_metadata_view, content_metadata_view_serves}
use edx_enterprise_subsidy.Samples.{run_key, sample_content, sample_env, sample_world}

-- a learner of enterprise 21 only
abbrev learner_of : Rbac
learner_of = record {
  access_via_database = λ role customer. customer == 21;
  access_via_jwt = λ role customer. false;
}

abbrev sample_parse : String → Option ℕ
sample_parse text = if str_eq text "21" then some 21 else none

abbrev sample_id : String → ℕ
sample_id text = if str_eq text "21" then 21 else 0

abbrev sample_summary : SummaryData
sample_summary = summary_data_for_content run_key sample_content

abbrev summarised_world : World
summarised_world = (get_content_summary sample_env 21 run_key sample_world).1

not_empty : ◌≢◌ {A = String} "21" ""
not_empty h = let same = (eq_iff "21" "").1 h in cc

content_metadata_view_serves_example :
    (has_perm learner_of (some 21) Permission.can_read_content_metadata ≡ true)
    × (get_content_summary sample_env 21 run_key sample_world
        ≡ (ok sample_summary, summarised_world))
unfolding content_metadata_view get_content_summary get_content_metadata_for_customer
    client_get_content_metadata_for_customer cached_content has_perm has_learner_level_access
    _user_has_explicit_access_via_feature_role _user_has_implicit_access_via_feature_role
content_metadata_view_serves_example =
    content_metadata_view_serves sample_env learner_of sample_parse sample_id false "21" run_key
      sample_world sample_summary summarised_world not_empty refl refl
