-- ===== src/Subsidies/Scope.antt =====
-- The subsidy that `get_object` gives an endpoint is one of the enterprise that the permission was
-- checked for.
use edx_enterprise_subsidy.Common.{
  ℕ, ◌≡◌, refl, ◌∙◌, sym, ap, String, Bool, true, false, not, ◌&&◌, Option, none, some, ◌==◌,
  filter, find, find_holds, find-filter, if◌then◌else◌, str_eq, arith,
}
use edx_enterprise_subsidy.Schema.Subsidy.{Subsidy}
use edx_enterprise_subsidy.Service.{World, Result, ok, err}
use edx_enterprise_subsidy.Batches.Sorted.{IsDistinct}
use edx_enterprise_subsidy.Batches.Rows.{find_unique}
use edx_enterprise_subsidy.Subsidy.{active_subsidies}
use edx_enterprise_subsidy.Api.{active_subsidy, customer_of}
use edx_enterprise_subsidy.Subsidies.{
  SubsidyRequest, get_permission_object, base_queryset, get_object, select, only_with, or_else,
  requested_subsidy, get_enterprise_uuid_from_request_query_params,
  get_subsidy_uuid_from_request_query_params, opt_or_not_found,
}

opt_or_not_found-ok : (o : Option Subsidy) (s : Subsidy) → opt_or_not_found o ≡ ok s → o ≡ some s
opt_or_not_found-ok none s h = cc
opt_or_not_found-ok (some t) s h = ground arith

-- the row that `get_object` finds, in the whole table
pub found_in :
    (q : Subsidy → Bool) (u : Option ℕ) (w : World) (s : Subsidy)
    → only_with u (ok (filter q (active_subsidies w))) ≡ ok s
    → (k : ℕ) × (u ≡ some k)
      × (find (λ (x : Subsidy). not x.is_soft_deleted && (q x && (x.uuid == k))) w.subsidies
          ≡ some s)
found_in q none w s h = cc
found_in q (some k) w s h = (
  k,
  refl,
  sym (find-filter (λ x. q x && (x.uuid == k)) (λ x. not x.is_soft_deleted) w.subsidies)
      ∙ sym (find-filter (λ x. x.uuid == k) q (active_subsidies w))
      ∙ opt_or_not_found-ok (find (λ x. x.uuid == k) (filter q (active_subsidies w))) s h,
)

-- the same row is the one that the permission's enterprise was taken from
requested_is :
    (request : SubsidyRequest) (q : Subsidy → Bool) (w : World) (s : Subsidy)
    → IsDistinct (λ (x : Subsidy). x.uuid) w.subsidies
    → only_with request.uuid (ok (filter q (active_subsidies w))) ≡ ok s
    → requested_subsidy request w ≡ some s
unfolding requested_subsidy
requested_is request q w s distinct h =
    let (k, e, found) = found_in q request.uuid w s h in
    let p = λ (x : Subsidy). not x.is_soft_deleted && (q x && (x.uuid == k)) in
    let holds = find_holds p w.subsidies s found in
    ap (λ (u : Option ℕ). elim u [ none ↦ none | some v ↦ active_subsidy v w ]) e
    ∙ find_unique (λ (x : Subsidy). x.uuid) k p (λ x. (x.uuid == k) && not x.is_soft_deleted)
        w.subsidies s (λ y t. ground arith) (λ y t. ground arith) distinct found
        (ground (arith, holds))

in_scope :
    (request : SubsidyRequest) (customer param : Result (Option ℕ)) (w : World) (c : ℕ)
    (s : Subsidy)
    → IsDistinct (λ (x : Subsidy). x.uuid) w.subsidies
    → or_else customer (customer_of (requested_subsidy request w)) ≡ ok (some c)
    → only_with request.uuid (select request customer param (active_subsidies w)) ≡ ok s
    → s.enterprise_customer_uuid ≡ c
in_scope request (err e) param w c s distinct checked found = cc
in_scope request (ok x) (err e) w c s distinct checked found = cc
in_scope request (ok (some x)) (ok param) w c s distinct checked found =
    let (k, e, h) = found_in _ request.uuid w s found in
    let holds = find_holds _ w.subsidies s h in ground (arith, holds, checked)
in_scope request (ok none) (ok param) w c s distinct checked found =
    let same = requested_is request _ w s distinct found in
    ground (arith, checked, ap customer_of same)

otherwise : (b : Bool) (x y z : Result (Option ℕ)) → b ≡ false → (if b then x else y) ≡ z → y ≡ z
otherwise true x y z e h = cc
otherwise false x y z e h = h

-- The subsidy that `get_object` returns, which `retrieve`, `update` and `destroy` work on, belongs to
-- the enterprise that the permission was checked for, whatever uuids the URL and the query name. For
-- a table of subsidies without duplicate keys. The actions that work on `requested_subsidy` are not
-- concerned.
pub get_object_in_scope :
    (parse_uuid : String → Option ℕ) (request : SubsidyRequest) (w w' : World) (c : ℕ) (s : Subsidy)
    → str_eq request.action "create" ≡ false
    → IsDistinct (λ (x : Subsidy). x.uuid) w.subsidies
    → get_permission_object parse_uuid request w ≡ ok (some c)
    → get_object parse_uuid request w ≡ (ok s, w')
    → s.enterprise_customer_uuid ≡ c
unfolding get_permission_object get_object base_queryset
get_object_in_scope parse_uuid request w w' c s other distinct checked found =
    in_scope request (get_enterprise_uuid_from_request_query_params parse_uuid request)
      (get_subsidy_uuid_from_request_query_params parse_uuid request) w c s distinct
      (otherwise (str_eq request.action "create") _ _ _ other checked) (ap (λ x. x.0) found)
