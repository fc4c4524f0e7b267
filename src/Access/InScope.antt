-- ===== src/Access/InScope.antt =====
-- The transactions that the TransactionViewSet works on are of the enterprise that the permission was
-- checked for.
use edx_enterprise_subsidy.Common.{
  ℕ, ◌≡◌, refl, ◌∙◌, sym, ap, String, Bool, true, false, ◌&&◌, ◌==◌, ==_iff, Option, none, some,
  List, [], All, All-map, All-both, All-filter, find, find_holds, find_row, opt_eq, arith,
}
use mathlib.Core.Path.{subst}
use edx_enterprise_subsidy.Schema.Ledger.{Transaction}
use edx_enterprise_subsidy.Schema.Subsidy.{Subsidy}
use edx_enterprise_subsidy.Service.{World, Result, ok, err}
use edx_enterprise_subsidy.Batches.Sorted.{IsDistinct}
use edx_enterprise_subsidy.Batches.Rows.{All-find, rows_found}
use edx_enterprise_subsidy.Api.{active_subsidy, customer_of}
use edx_enterprise_subsidy.Access.{
  Jwt, RequestParameters, subsidy_of_ledger, subsidy_is, of_customer, of_subsidy, passes, restrict,
  learner_only_contexts, matches_parameters, base_queryset, filter_result, uuid_parameter,
}
use edx_enterprise_subsidy.Access.Visible.{restrict-All, filter_result-All}
use edx_enterprise_subsidy.Access.Requests.{
  TransactionRequest, permission_context, subsidy_of_transaction, subsidy_of_row, parameters_of,
  requested_parameters, get_permission_object, requested_subsidy_uuid, requested_transaction_uuid,
  requested_subsidy_access_policy_uuid,
}

-- two subsidies have two ledgers: each is the one of its ledger
abbrev pub OneToOne : List Subsidy → Type 0
OneToOne rows =
    All (λ s. (l : ℕ) → opt_eq s.ledger l ≡ true → find (λ x. opt_eq x.ledger l) rows ≡ some s) rows

abbrev customer_or : ℕ → Option ℕ → ℕ
customer_or default none = default
customer_or default (some c) = c

customer_is :
    (s : Subsidy) (c : ℕ) → customer_of (some s) ≡ some c → (s.enterprise_customer_uuid == c) ≡ true
customer_is s c h = (==_iff s.enterprise_customer_uuid c).1 (ap (customer_or c) h)

-- the row of a uuid
by_uuid :
    (w : World) (p : Subsidy → Bool) (s : Subsidy)
    → IsDistinct (λ (x : Subsidy). x.uuid) w.subsidies
    → find p w.subsidies ≡ some s
    → find_row (λ (x : Subsidy). x.uuid) s.uuid w.subsidies ≡ some s
by_uuid w p s distinct h =
    All-find (λ (x : Subsidy). find_row (λ (y : Subsidy). y.uuid) x.uuid w.subsidies ≡ some x) p
      w.subsidies s (rows_found (λ (x : Subsidy). x.uuid) w.subsidies distinct) h

abbrev subsidy_or : Subsidy → Option Subsidy → Subsidy
subsidy_or default none = default
subsidy_or default (some s) = s

-- the subsidy that was asked for is the one of the transaction's ledger
same_subsidy :
    (w : World) (u : ℕ) (t : Transaction) (s s' : Subsidy)
    → IsDistinct (λ (x : Subsidy). x.uuid) w.subsidies
    → active_subsidy u w ≡ some s
    → subsidy_of_ledger w.subsidies t ≡ some s'
    → (s'.uuid == u) ≡ true
    → s' ≡ s
same_subsidy w u t s s' distinct e e' is_u =
    let holds = find_holds _ w.subsidies s e in
    let same : s'.uuid ≡ s.uuid = ground (arith, holds, is_u) in
    ap (subsidy_or s) (
      sym (by_uuid w _ s' distinct e')
      ∙ ap (λ k. find_row (λ (x : Subsidy). x.uuid) k w.subsidies) same
      ∙ by_uuid w _ s distinct e)

asked_for :
    (w : World) (u c : ℕ) (t : Transaction) (o o' : Option Subsidy)
    → IsDistinct (λ (x : Subsidy). x.uuid) w.subsidies
    → active_subsidy u w ≡ o
    → subsidy_of_ledger w.subsidies t ≡ o'
    → customer_of o ≡ some c
    → subsidy_is (λ s. s.uuid == u) o' ≡ true
    → subsidy_is (λ s. s.enterprise_customer_uuid == c) o' ≡ true
asked_for w u c t none o' distinct e e' h is_u = cc
asked_for w u c t (some s) none distinct e e' h is_u = cc
asked_for w u c t (some s) (some s') distinct e e' h is_u =
    subst (λ x. (x.enterprise_customer_uuid == c) ≡ true)
      (sym (same_subsidy w u t s s' distinct e e' is_u)) (customer_is s c h)

of_the_row :
    (w : World) (c : ℕ) (t : Transaction) (o : Option Subsidy)
    → OneToOne w.subsidies
    → subsidy_of_row (some t) w ≡ o
    → customer_of o ≡ some c
    → of_customer w.subsidies c t ≡ true
of_the_row w c t none one e h = cc
of_the_row w c t (some s) one e h =
    let holds = find_holds _ w.subsidies s e in
    let has_ledger : opt_eq s.ledger t.ledger_uuid ≡ true = ground (arith, holds) in
    let found =
      All-find
        (λ x.
          (l : ℕ) → opt_eq x.ledger l ≡ true → find (λ y. opt_eq y.ledger l) w.subsidies ≡ some x)
        _ w.subsidies s one e t.ledger_uuid has_ledger in
    ap (subsidy_is (λ s. s.enterprise_customer_uuid == c)) found ∙ customer_is s c h

abbrev context_or : Result (Option ℕ) → Option ℕ
context_or (ok context) = context
context_or (err e) = none

row_in_scope :
    (w : World) (subsidy transaction : Option ℕ) (c : ℕ) (t : Transaction)
    → IsDistinct (λ (x : Subsidy). x.uuid) w.subsidies
    → OneToOne w.subsidies
    → permission_context (ok subsidy) (ok transaction) w ≡ ok (some c)
    → passes (λ u. of_subsidy w.subsidies u t) subsidy ≡ true
    → passes (λ u. t.uuid == u) transaction ≡ true
    → find_row (λ (x : Transaction). x.uuid) t.uuid w.transactions ≡ some t
    → of_customer w.subsidies c t ≡ true
unfolding subsidy_of_transaction
row_in_scope w none none c t distinct one checked ps pt found = cc
row_in_scope w (some u) transaction c t distinct one checked ps pt found =
    asked_for w u c t (active_subsidy u w) (subsidy_of_ledger w.subsidies t) distinct refl refl
      (ap context_or checked) ps
row_in_scope w none (some x) c t distinct one checked ps pt found =
    let here : find_row (λ (x : Transaction). x.uuid) x w.transactions ≡ some t =
      ap (λ k. find_row (λ (x : Transaction). x.uuid) k w.transactions)
        (sym ((==_iff t.uuid x).0 pt))
      ∙ found in
    of_the_row w c t (subsidy_of_row (some t) w) one refl
      (ap (λ o. customer_of (subsidy_of_row o w)) (sym here) ∙ ap context_or checked)

abbrev list_of : Result (List Transaction) → List Transaction
list_of (ok ts) = ts
list_of (err e) = []

abbrev parameters_or : RequestParameters → Result RequestParameters → RequestParameters
parameters_or default (ok parameters) = parameters
parameters_or default (err e) = default

matching :
    (test : Transaction → Bool) (r : Result (List Transaction)) (ts : List Transaction)
    → filter_result test r ≡ ok ts
    → All (λ t. test t ≡ true) ts
matching test (ok all) ts h = subst (All (λ t. test t ≡ true)) (ap list_of h) (All-filter test all)
matching test (err e) ts h = cc

-- the rows of the queryset are rows of the table, and match the parameters
base_queryset_rows :
    (jwt : Jwt) (parameters : RequestParameters) (w : World) (ts : List Transaction)
    → IsDistinct (λ (x : Transaction). x.uuid) w.transactions
    → base_queryset jwt parameters w ≡ ok ts
    → All
        (λ t.
          (find_row (λ (x : Transaction). x.uuid) t.uuid w.transactions ≡ some t)
          × (matches_parameters w.subsidies parameters t ≡ true))
        ts
unfolding base_queryset
base_queryset_rows jwt parameters w ts distinct h =
    let P =
      λ (t : Transaction). find_row (λ (x : Transaction). x.uuid) t.uuid w.transactions ≡ some t in
    let test = matches_parameters w.subsidies parameters in
    let contexts = learner_only_contexts jwt in
    let r = restrict w.subsidies jwt.user_id contexts w.transactions in
    All-both P (λ t. test t ≡ true) ts
      (filter_result-All P test r ts h (λ rows e.
        restrict-All P w.subsidies jwt.user_id contexts w.transactions rows e
          (rows_found (λ (x : Transaction). x.uuid) w.transactions distinct)))
      (matching test r ts h)

both_true : (a b : Bool) → (a && b) ≡ true → (a ≡ true) × (b ≡ true)
both_true true b h = (refl, h)
both_true false b h = cc

matched :
    (subsidies : List Subsidy) (parameters : RequestParameters) (t : Transaction)
    → matches_parameters subsidies parameters t ≡ true
    → (passes (λ u. of_subsidy subsidies u t) parameters.subsidy_uuid ≡ true)
      × (passes (λ u. t.uuid == u) parameters.transaction_uuid ≡ true)
unfolding matches_parameters
matched subsidies parameters t h =
    let (_, h1) = both_true _ _ h in
    let (ps, h2) = both_true _ _ h1 in let (pt, h3) = both_true _ _ h2 in (ps, pt)

scoped :
    (request : TransactionRequest) (customer subsidy transaction policy : Result (Option ℕ))
    (jwt : Jwt) (parameters : RequestParameters) (w : World) (ts : List Transaction) (c : ℕ)
    → IsDistinct (λ (x : Subsidy). x.uuid) w.subsidies
    → IsDistinct (λ (x : Transaction). x.uuid) w.transactions
    → OneToOne w.subsidies
    → permission_context subsidy transaction w ≡ ok (some c)
    → parameters_of request customer subsidy transaction policy ≡ ok parameters
    → base_queryset jwt parameters w ≡ ok ts
    → All (λ t. of_customer w.subsidies c t ≡ true) ts
scoped request (err e) subsidy transaction policy jwt parameters w ts c ds dt one checked e' h = cc
scoped request (ok _) (err e) transaction policy jwt parameters w ts c ds dt one checked e' h = cc
scoped request (ok _) (ok _) (err e) policy jwt parameters w ts c ds dt one checked e' h = cc
scoped request (ok _) (ok _) (ok _) (err e) jwt parameters w ts c ds dt one checked e' h = cc
scoped request (ok customer) (ok subsidy) (ok transaction) (ok policy) jwt parameters w ts c ds dt
      one checked e' h =
    All-map
      (λ t.
        (find_row (λ (x : Transaction). x.uuid) t.uuid w.transactions ≡ some t)
        × (matches_parameters w.subsidies parameters t ≡ true))
      (λ t. of_customer w.subsidies c t ≡ true) ts
      (λ t k.
        let is_subsidy : parameters.subsidy_uuid ≡ subsidy =
          sym (ap (λ r. (parameters_or parameters r).subsidy_uuid) e') in
        let is_transaction : parameters.transaction_uuid ≡ transaction =
          sym (ap (λ r. (parameters_or parameters r).transaction_uuid) e') in
        let (ps, pt) = matched w.subsidies parameters t k.1 in
        row_in_scope w subsidy transaction c t ds one checked
          (ap (λ o. passes (λ u. of_subsidy w.subsidies u t) o) (sym is_subsidy) ∙ ps)
          (ap (λ o. passes (λ u. t.uuid == u) o) (sym is_transaction) ∙ pt) k.0)
      (base_queryset_rows jwt parameters w ts dt h)

-- Whichever subsidy and transaction a request to the endpoints of v1 names: if the permission is
-- checked for an enterprise, all transactions that the request can see are of this enterprise's
-- subsidies. For tables without duplicate keys, and a ledger for each subsidy that no other has.
pub base_queryset_in_scope :
    (parse_uuid : String → Option ℕ) (request : TransactionRequest) (jwt : Jwt)
    (parameters : RequestParameters) (w : World) (ts : List Transaction) (c : ℕ)
    → IsDistinct (λ (x : Subsidy). x.uuid) w.subsidies
    → IsDistinct (λ (x : Transaction). x.uuid) w.transactions
    → OneToOne w.subsidies
    → get_permission_object parse_uuid request w ≡ ok (some c)
    → requested_parameters parse_uuid request ≡ ok parameters
    → base_queryset jwt parameters w ≡ ok ts
    → All (λ t. of_customer w.subsidies c t ≡ true) ts
unfolding get_permission_object requested_parameters
base_queryset_in_scope parse_uuid request jwt parameters w ts c ds dt one checked parsed h =
    scoped request (uuid_parameter parse_uuid request.enterprise_customer_uuid)
      (requested_subsidy_uuid parse_uuid request) (requested_transaction_uuid parse_uuid request)
      (requested_subsidy_access_policy_uuid parse_uuid request) jwt parameters w ts c ds dt one
      checked parsed h
