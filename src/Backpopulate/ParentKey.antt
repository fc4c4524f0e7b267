-- ===== src/Backpopulate/ParentKey.antt =====
-- What the aggregation key of a content says of its parent.
use Prim.Native.String.{◌++◌}
use edx_enterprise_subsidy.Common.{String, ◌≡◌, ◌∙◌, ap, none, some, if◌then◌else◌, str_eq}
use edx_enterprise_subsidy.Schema.Catalog.{ContentData}
use edx_enterprise_subsidy.Service.{ok}
use edx_enterprise_subsidy.Backpopulate.{
  _get_parent_content_key, aggregation_text, parent_of, parent_of_text,
}
use edx_enterprise_subsidy.Backpopulate.Key.{NoColon, partition_colon-append}

-- For an aggregation key that joins a content type without colons and a content key by a colon, the
-- parent is that content key, whole and with its own colons, if the type is that of course runs, and
-- null for every other type.
pub _get_parent_content_key_lem :
    (metadata : ContentData) (content_type content_key : String)
    → NoColon content_type
    → metadata.aggregation_key ≡ some (some (content_type ++ (":" ++ content_key)))
    → _get_parent_content_key metadata
      ≡ ok (if str_eq content_type "courserun" then some content_key else none)
unfolding _get_parent_content_key
_get_parent_content_key_lem metadata content_type content_key h e =
    ap (λ a. parent_of_text (aggregation_text a)) e
    ∙ ap (λ parts. ok (parent_of parts)) (partition_colon-append content_type content_key h)
