-- ===== src/Schema/Catalog.antt =====
-- Content metadata as enterprise-catalog returns it: the fields that the program reads, each of
-- which may be missing or null.
use edx_enterprise_subsidy.Common.{ℕ, String, Bool, true, Option, List, ◌==◌, not}

-- A JSON price is a number or a text; either denotes `num / den` dollars, not negative.
pub data PriceValue : Type 0 where
  float : ℕ → ℕ → PriceValue
  text : ℕ → ℕ → PriceValue

-- A text of digits is never empty, so only the number 0 is false.
abbrev pub truthy_price : PriceValue → Bool
truthy_price (PriceValue.float num den) = not (num == 0)
truthy_price (PriceValue.text num den) = true

-- A date field holds an ISO text, a `datetime` (in a data object), or nothing.
pub data DateValue : Type 0 where
  iso : String → DateValue
  datetime : ℕ → DateValue

pub record Seat : Type 0 where
  pub type : Option String
  pub upgrade_deadline_override : Option String
  pub upgrade_deadline : Option String

pub record CourseRun : Type 0 where
  pub key : Option String
  pub uuid : Option String
  pub variant_id : Option String
  pub first_enrollable_paid_seat_price : Option PriceValue
  pub seats : List Seat
  pub enrollment_end : Option String
  pub start : Option DateValue

pub record Entitlement : Type 0 where
  pub mode : Option String
  pub price : Option PriceValue

-- A course, or a course run: then `run` has the fields of the run itself. `is_empty` says that the
-- answer is the empty mapping, which is falsy.
pub record ContentData : Type 0 where
  pub is_empty : Bool
  pub run : CourseRun
  pub open run use *
  pub content_type : Option String
  pub title : Option String
  pub product_source : Option (Option String)
  pub entitlements : List Entitlement
  pub normalized_metadata_by_run : List (String × Option PriceValue)
  pub additional_metadata : Option (Option String)
  pub advertised_course_run_uuid : Option String
  pub course_runs : List CourseRun
  pub aggregation_key : Option (Option String)
