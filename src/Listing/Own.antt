-- ===== src/Listing/Own.antt =====
-- Which transactions the two lists show.
use edx_enterprise_subsidy.Common.{
  ℕ, ◌≡◌, refl, ◌∙◌, sym, ap, Bool, true, false, Option, none, some, List, if◌then◌else◌, All,
  All-both, All-filter, All-filter_keep, filter, opt_eq,
}
use mathlib.Core.Path.{subst}
use edx_enterprise_subsidy.Schema.Ledger.{Transaction}
use edx_enterprise_subsidy.Schema.Subsidy.{Subsidy}
use edx_enterprise_subsidy.Service.{
  Env, World, Result, ok, err, Exec, Exception, rescue, catch, pure, gets, ◌>>=◌,
}
use edx_enterprise_subsidy.Service.Inversion.{bind-ok}
use edx_enterprise_subsidy.Access.{Rbac, has_perm, has_admin_level_access, has_learner_level_access}
use edx_enterprise_subsidy.Api.{customer_of, active_subsidy, get_subsidy_by_uuid, subsidy_or_raise}
use edx_enterprise_subsidy.Deposits.{get_subsidy_customer_uuid_from_view}
use edx_enterprise_subsidy.Listing.{
  TransactionFilters, Page, ListResponse, in_ledger_of, get_queryset, aggregates_for, paginated,
  list_filtered, admin_list, user_list, matches_filters, has_user_id, found_or_not,
}

-- a search, or a page, has only rows that it was given
abbrev pub Narrows : (List Transaction → List Transaction) → Type 1
Narrows f = (P : Transaction → Type 0) (rows : List Transaction) → All P rows → All P (f rows)

-- what a list shows, begun at `w`
pub record Shown (search page : List Transaction → List Transaction) (test : Transaction → Bool)
    (u : ℕ) (w : World) (p : Page) : Type 0 where
  pub subsidy : Subsidy
  pub exists : active_subsidy u w ≡ some subsidy
  pub results :
      p.results ≡ page (search (filter test (filter (in_ledger_of subsidy) w.transactions)))

abbrev rows_or : List Transaction → Result (List Transaction) → List Transaction
rows_or default (ok rows) = rows
rows_or default (err e) = default

abbrev results_or : List Transaction → Result ListResponse → List Transaction
results_or default (ok (ListResponse.listed p)) = p.results
results_or default _ = default

module _ (env : Env) where
  queried :
      (u : ℕ) (o : Option Subsidy) (w v : World) (rows : List Transaction)
      → active_subsidy u w ≡ o
      → (subsidy_or_raise env o >>= λ s. gets (λ w. filter (in_ledger_of s) w.transactions)) w
        ≡ (ok rows, v)
      → (s : Subsidy) × (active_subsidy u w ≡ some s)
        × (rows ≡ filter (in_ledger_of s) w.transactions)
  queried u none w v rows e h = cc
  queried u (some s) w v rows e h = (s, e, sym (ap (λ x. rows_or rows x.0) h))

  get_queryset-ok :
      (u : ℕ) (w v : World) (rows : List Transaction)
      → get_queryset env u w ≡ (ok rows, v)
      → (s : Subsidy) × (active_subsidy u w ≡ some s)
        × (rows ≡ filter (in_ledger_of s) w.transactions)
  unfolding get_queryset get_subsidy_by_uuid
  get_queryset-ok u w v rows h = queried u (active_subsidy u w) w v rows refl h

  module _ (search page : List Transaction → List Transaction) where
    list_filtered-Shown :
        (test : Transaction → Bool) (include_aggregates : Bool) (u : ℕ) (w v : World) (p : Page)
        → list_filtered env search page test include_aggregates u w
          ≡ (ok (ListResponse.listed p), v)
        → Shown search page test u w p
    unfolding paginated
    list_filtered-Shown test include_aggregates u w v p h =
        let (rows, w1, e, k) = bind-ok (get_queryset env u) _ w h in
        let (s, exists, is_rows) = get_queryset-ok u w w1 rows e in
        let (a, w2, e', k') =
          bind-ok (aggregates_for env include_aggregates u (search (filter test rows))) _ w1 k in
        record {
          subsidy = s;
          exists = exists;
          results =
              sym (ap (λ x. results_or p.results x.0) k')
              ∙ ap (λ r. page (search (filter test r))) is_rows;
        }

    -- rows of the subsidy's ledger that pass the test
    Shown-All :
        (test : Transaction → Bool) (u : ℕ) (w : World) (p : Page)
        (shown : Shown search page test u w p)
        → Narrows search
        → Narrows page
        → All (λ t. (test t ≡ true) × (in_ledger_of shown.subsidy t ≡ true)) p.results
    Shown-All test u w p shown narrows_search narrows_page =
        let P = λ (t : Transaction). (test t ≡ true) × (in_ledger_of shown.subsidy t ≡ true) in
        let rows = filter (in_ledger_of shown.subsidy) w.transactions in
        subst (All P) (sym shown.results) (
          narrows_page P (search (filter test rows)) (
            narrows_search P (filter test rows) (
              All-both (λ t. test t ≡ true) (λ t. in_ledger_of shown.subsidy t ≡ true)
                (filter test rows) (All-filter test rows)
                (All-filter_keep (λ t. in_ledger_of shown.subsidy t ≡ true) test rows
                  (All-filter (in_ledger_of shown.subsidy) w.transactions)))))

    permitted :
        (b : Bool) (m : Exec ListResponse) (w v : World) (p : Page)
        → (if b then m else pure ListResponse.forbidden) w ≡ (ok (ListResponse.listed p), v)
        → (b ≡ true) × (m w ≡ (ok (ListResponse.listed p), v))
    permitted true m w v p h = (refl, h)
    permitted false m w v p h = cc

    identified :
        (b : Bool) (m : Exec ListResponse) (w v : World) (p : Page)
        → (if b then m else pure ListResponse.not_found) w ≡ (ok (ListResponse.listed p), v)
        → (b ≡ true) × (m w ≡ (ok (ListResponse.listed p), v))
    identified true m w v p h = (refl, h)
    identified false m w v p h = cc

    unidentified :
        (b : Bool) (w v : World) (p : Page)
        → (if b then pure ListResponse.not_found else pure ListResponse.forbidden) w
          ≡ (ok (ListResponse.listed p), v)
        → ⊥
    unidentified true w v p h = cc
    unidentified false w v p h = cc

    rescued :
        (r : Result ListResponse) (w v : World) (p : Page)
        → rescue r found_or_not w ≡ (ok (ListResponse.listed p), v)
        → ◌≡◌ {A = Result ListResponse × World} (r, w) (ok (ListResponse.listed p), v)
    rescued (ok a) w v p h = h
    rescued (err Exception.does_not_exist) w v p h = cc
    rescued (err _) w v p h = cc

    -- What the list for admins shows, it shows to an admin or operator of the enterprise of an existing
    -- subsidy: transactions of this subsidy's ledger that match the filters, and no other. For a
    -- search and a pagination that only leave out and order rows.
    pub admin_list_shows :
        (rbac : Rbac) (u : ℕ) (filters : TransactionFilters) (include_aggregates : Bool)
        (w v : World) (p : Page)
        → Narrows search
        → Narrows page
        → admin_list env search page rbac u filters include_aggregates w
          ≡ (ok (ListResponse.listed p), v)
        → (s : Subsidy) × (active_subsidy u w ≡ some s)
          × (has_admin_level_access rbac (some s.enterprise_customer_uuid) ≡ true)
          × All (λ t. (matches_filters filters t ≡ true) × (in_ledger_of s t ≡ true)) p.results
    unfolding admin_list get_subsidy_customer_uuid_from_view has_perm
    admin_list_shows rbac u filters include_aggregates w v p narrows_search narrows_page h =
        let (allowed, k) = permitted _ _ w v p h in
        let shown = list_filtered-Shown (matches_filters filters) include_aggregates u w v p k in
        (
          shown.subsidy,
          shown.exists,
          sym (ap (λ o. has_admin_level_access rbac (customer_of o)) shown.exists) ∙ allowed,
          Shown-All (matches_filters filters) u w p shown narrows_search narrows_page,
        )

    -- What a user's own list shows are transactions of this very user in the ledger of an existing
    -- subsidy, of whose enterprise the user is a learner, admin or operator; and a user without an id
    -- is shown nothing. For a search and a pagination that only leave out and order rows.
    pub user_list_shows :
        (rbac : Rbac) (lms_user_id : Option ℕ) (u : ℕ) (include_aggregates : Bool) (w v : World)
        (p : Page)
        → Narrows search
        → Narrows page
        → user_list env search page rbac lms_user_id u include_aggregates w
          ≡ (ok (ListResponse.listed p), v)
        → (s : Subsidy) × (user : ℕ) × (active_subsidy u w ≡ some s)
          × (lms_user_id ≡ some user)
          × (has_learner_level_access rbac (some s.enterprise_customer_uuid) ≡ true)
          × All (λ t. (opt_eq t.lms_user_id user ≡ true) × (in_ledger_of s t ≡ true)) p.results
    unfolding user_list get_subsidy_customer_uuid_from_view has_perm
    user_list_shows rbac none u include_aggregates w v p narrows_search narrows_page h =
        absurd (unidentified _ w v p h)
    user_list_shows rbac (some user) u include_aggregates w v p narrows_search narrows_page h =
        let (allowed, k) = permitted _ _ w v p h in
        let own = λ (t : Transaction). opt_eq t.lms_user_id user in
        let listed = catch (list_filtered env search page own include_aggregates u) found_or_not in
        let (known, k') = identified (has_user_id (some user)) listed w v p k in
        let (r, w') = list_filtered env search page own include_aggregates u w in
        let shown = list_filtered-Shown own include_aggregates u w v p (rescued r w' v p k') in
        (
          shown.subsidy,
          user,
          shown.exists,
          refl,
          sym (ap (λ o. has_learner_level_access rbac (customer_of o)) shown.exists) ∙ allowed,
          Shown-All own u w p shown narrows_search narrows_page,
        )
