-- ===== src/ContentMetadata/Extract.antt =====
-- The methods of `ContentMetadataApi` that compute on one piece of metadata.
use edx_enterprise_subsidy.Common.{
  ℕ, ◌*◌, ◌/◌, String, Bool, true, false, ◌||◌, Option, none, some, List, [], ◌∷◌, if◌then◌else◌,
  str_eq, opt_str_eq, truthy_text, filter,
}
use edx_enterprise_subsidy.Schema.Catalog.{
  PriceValue, truthy_price, Seat, CourseRun, Entitlement, ContentData,
}

-- ProductSources: "edX" and "2u"
pub data ProductSource : Type 0 where
  edx twou : ProductSource

-- CourseModes
pub data CourseMode : Type 0 where
  edx_verified executive_education : CourseMode

abbrev pub mode_value : CourseMode → String
mode_value CourseMode.edx_verified = "verified"
mode_value CourseMode.executive_education = "paid-executive-education"

-- "edX" and every unknown slug give the default
abbrev source_of_slug : Option String → ProductSource
source_of_slug none = ProductSource.edx
source_of_slug (some slug) = if str_eq slug "2u" then ProductSource.twou else ProductSource.edx

pub product_source_for_content : ContentData → ProductSource
product_source_for_content content = elim content.product_source [
  | none ↦ ProductSource.edx
  | some slug ↦ source_of_slug slug
]

abbrev mode_of_source : ProductSource → CourseMode
mode_of_source ProductSource.edx = CourseMode.edx_verified
mode_of_source ProductSource.twou = CourseMode.executive_education

pub mode_for_content : ContentData → CourseMode
mode_for_content content = mode_of_source (product_source_for_content content)

-- DEFAULT_CONTENT_PRICE
abbrev pub default_content_price : PriceValue
default_content_price = PriceValue.float 0 1

-- CENTS_PER_DOLLAR
abbrev cents_per_dollar : ℕ
cents_per_dollar = 100

-- `int(Decimal(price) * CENTS_PER_DOLLAR)`
unfoldable pub to_cents : PriceValue → ℕ
to_cents (PriceValue.float num den) = num * cents_per_dollar / den
to_cents (PriceValue.text num den) = num * cents_per_dollar / den

-- the loop over the entitlements, from the price found so far
unfoldable pub entitlement_price :
    CourseMode → Option PriceValue → List Entitlement → Option PriceValue
entitlement_price mode content_price [] = content_price
entitlement_price mode content_price (entitlement ∷ rest) =
    entitlement_price mode
      (if opt_str_eq entitlement.mode (mode_value mode) then entitlement.price else content_price)
      rest

-- `price or default`
abbrev or_price : Option PriceValue → PriceValue → PriceValue
or_price none default = default
or_price (some price) default = if truthy_price price then price else default

abbrev source_price : ProductSource → ContentData → CourseRun → Option PriceValue
source_price ProductSource.twou content run =
    entitlement_price (mode_for_content content) none content.entitlements
source_price ProductSource.edx content run = run.first_enrollable_paid_seat_price

unfoldable pub price_for_content_fallback : ContentData → CourseRun → PriceValue
unfolding product_source_for_content mode_for_content
price_for_content_fallback content run =
    or_price (source_price (product_source_for_content content) content run) default_content_price

-- `normalized_metadata_by_run[key].get("content_price")`
abbrev normalized_price : Option String → List (String × Option PriceValue) → Option PriceValue
normalized_price key [] = none
normalized_price key ((k, price) ∷ rest) =
    let others = normalized_price key rest in if opt_str_eq key k then price else others

unfoldable pub price_for_content : ContentData → CourseRun → ℕ
unfolding to_cents price_for_content_fallback
price_for_content content run = to_cents (
    or_price (normalized_price run.key content.normalized_metadata_by_run)
      (price_for_content_fallback content run))

-- `a == b`, where either may be None
abbrev pub same_text : Option String → Option String → Bool
same_text none none = true
same_text (some a) (some b) = str_eq a b
same_text _ _ = false

-- the `{}` that `get_course_run` falls back to
abbrev pub empty_run : CourseRun
empty_run = record {
  key = none;
  uuid = none;
  variant_id = none;
  first_enrollable_paid_seat_price = none;
  seats = [];
  enrollment_end = none;
  start = none;
}

unfoldable pub find_run : Option String → List CourseRun → CourseRun
find_run identifier [] = empty_run
find_run identifier (course_run ∷ rest) =
    let others = find_run identifier rest in
    if same_text identifier course_run.key || same_text identifier course_run.uuid
    then course_run
    else others

unfoldable pub get_course_run : String → ContentData → CourseRun
get_course_run content_identifier content =
    if opt_str_eq content.content_type "courserun"
    then content.run
    else find_run
        (if opt_str_eq content.key content_identifier || opt_str_eq content.uuid content_identifier
          then content.advertised_course_run_uuid
          else some content_identifier)
        content.course_runs

-- `value or default`
abbrev or_text : Option String → Option String → Option String
or_text value default = if truthy_text value then value else default

abbrev additional_variant : Option (Option String) → Option String → Option String
additional_variant none variant_id = variant_id
additional_variant (some variant) variant_id = variant

unfoldable pub get_geag_variant_id_for_content : String → ContentData → Option String
get_geag_variant_id_for_content content_identifier content =
    let variant_id = (get_course_run content_identifier content).variant_id in
    or_text variant_id (additional_variant content.additional_metadata variant_id)

abbrev seat_deadline : List Seat → Option String
seat_deadline [] = none
seat_deadline (seat ∷ _) = or_text seat.upgrade_deadline_override seat.upgrade_deadline

abbrev deadline_for_mode : CourseMode → List Seat → Option String
deadline_for_mode CourseMode.edx_verified seats =
    seat_deadline (filter (λ seat. opt_str_eq seat.type (mode_value CourseMode.edx_verified)) seats)
deadline_for_mode CourseMode.executive_education seats = none

unfoldable pub enroll_by_date_for_content : CourseRun → CourseMode → Option String
enroll_by_date_for_content run mode = or_text (deadline_for_mode mode run.seats) run.enrollment_end

pub record SummaryData : Type 0 where
  pub content_title : Option String
  pub content_uuid : Option String
  pub content_key : Option String
  pub course_run_uuid : Option String
  pub course_run_key : Option String
  pub source : ProductSource
  pub mode : CourseMode
  pub content_price : ℕ
  pub enroll_by_date : Option String
  pub geag_variant_id : Option String

unfoldable pub summary_data_for_content : String → ContentData → SummaryData
summary_data_for_content content_identifier content =
    let run = get_course_run content_identifier content in
    let content_mode = mode_for_content content in
    record {
      content_title = content.title;
      content_uuid = content.uuid;
      content_key = content.key;
      course_run_uuid = run.uuid;
      course_run_key = run.key;
      source = product_source_for_content content;
      mode = content_mode;
      content_price = price_for_content content run;
      enroll_by_date = enroll_by_date_for_content run content_mode;
      geag_variant_id = get_geag_variant_id_for_content content_identifier content;
    }
