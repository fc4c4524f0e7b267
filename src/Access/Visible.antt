-- ===== src/Access/Visible.antt =====
-- Which transactions a learner sees.
use edx_enterprise_subsidy.Common.{
  ℕ, ◌≡◌, refl, ◌⊎◌, inl, inr, ◌==◌, ==_iff, sym, ap, ◌∙◌, Bool, true, false, not, ◌||◌, Option,
  some, List, [], ◌∷◌, filter, All, All-filter, All-filter_keep, All-map, arith, Bool-cases,
}
use edx_enterprise_subsidy.Schema.Ledger.{Transaction}
use edx_enterprise_subsidy.Schema.Subsidy.{Subsidy}
use edx_enterprise_subsidy.Service.{Result, ok, err, World}
use edx_enterprise_subsidy.Access.{
  Context, member, Jwt, RequestParameters, of_customer, own_or_elsewhere, restrict,
  learner_only_contexts, matches_parameters, filter_result, base_queryset,
}

abbrev list_of : Result (List Transaction) → List Transaction
list_of (ok ts) = ts
list_of (err e) = []

pub restrict-All :
    (P : Transaction → Type 0) (subsidies : List Subsidy) (user : Option ℕ)
    (contexts : List Context) (queryset ts : List Transaction)
    → restrict subsidies user contexts queryset ≡ ok ts
    → All P queryset
    → All P ts
unfolding restrict
restrict-All P subsidies user [] queryset ts h a = coe 0 1 (i. All P (list_of (h i))) a
restrict-All P subsidies user (Context.all_access ∷ rest) queryset ts h a = cc
restrict-All P subsidies user (Context.customer c ∷ rest) queryset ts h a =
    restrict-All P subsidies user rest (filter (own_or_elsewhere subsidies user c) queryset) ts h
      (All-filter_keep P (own_or_elsewhere subsidies user c) queryset a)

or_right : (a b : Bool) → a ≡ false → (a || b) ≡ true → b ≡ true
or_right a b e h = ground arith

member-filter :
    (c : ℕ) (p : Context → Bool) (contexts : List Context)
    → p (Context.customer c) ≡ true
    → member (Context.customer c) contexts ≡ true
    → member (Context.customer c) (filter p contexts) ≡ true
member-filter c p [] hp m = cc
member-filter c p (Context.all_access ∷ rest) hp m =
    let ih = member-filter c p rest hp m in ground arith
member-filter c p (Context.customer d ∷ rest) hp m = elim (Bool-cases (c == d)) [
  | inl e ↦
      let hd : p (Context.customer d) ≡ true =
        ap (λ k. p (Context.customer k)) (sym ((==_iff c d).0 e)) ∙ hp in
      ground arith
  | inr e ↦
      let ih =
        member-filter c p rest hp (or_right (c == d) (member (Context.customer c) rest) e m) in
      ground arith
]

pub filter_result-All :
    (P : Transaction → Type 0) (test : Transaction → Bool) (r : Result (List Transaction))
    (ts : List Transaction)
    → filter_result test r ≡ ok ts
    → ((all : List Transaction) → r ≡ ok all → All P all)
    → All P ts
filter_result-All P test (ok all) ts h a =
    coe 0 1 (i. All P (list_of (h i))) (All-filter_keep P test all (a all refl))
filter_result-All P test (err e) ts h a = cc

restrict-own :
    (subsidies : List Subsidy) (user : Option ℕ) (contexts : List Context)
    (queryset ts : List Transaction) (c : ℕ)
    → restrict subsidies user contexts queryset ≡ ok ts
    → member (Context.customer c) contexts ≡ true
    → All (λ t. own_or_elsewhere subsidies user c t ≡ true) ts
unfolding restrict
restrict-own subsidies user [] queryset ts c h m = cc
restrict-own subsidies user (Context.all_access ∷ rest) queryset ts c h m = cc
restrict-own subsidies user (Context.customer d ∷ rest) queryset ts c h m =
    let P = λ (k : ℕ) (t : Transaction). own_or_elsewhere subsidies user k t ≡ true in
    let kept = filter (own_or_elsewhere subsidies user d) queryset in
    elim (Bool-cases (c == d)) [
      | inl e ↦ restrict-All (P c) subsidies user rest kept ts h (
          coe 0 1 (i. All (P (sym ((==_iff c d).0 e) i)) kept)
            (All-filter (own_or_elsewhere subsidies user d) queryset))
      | inr e ↦
          restrict-own subsidies user rest kept ts c h
            (or_right (c == d) (member (Context.customer c) rest) e m)
    ]

-- a transaction of another enterprise, or the user's own
abbrev pub ElsewhereOrOwn : List Subsidy → Jwt → ℕ → Transaction → Type 0
ElsewhereOrOwn subsidies jwt c t =
    (of_customer subsidies c t ≡ false)
    ⊎ ((u : ℕ) × (jwt.user_id ≡ some u) × (t.lms_user_id ≡ some u))

own-ElsewhereOrOwn :
    (subsidies : List Subsidy) (jwt : Jwt) (c : ℕ) (t : Transaction)
    → own_or_elsewhere subsidies jwt.user_id c t ≡ true
    → ElsewhereOrOwn subsidies jwt c t
own-ElsewhereOrOwn subsidies jwt c t h = ground arith

-- A user whose token gives a learner's role in an enterprise, and no admin's or operator's role there
-- or everywhere, gets of this enterprise's transactions only the own ones, whatever the request's
-- parameters. It is the roles in the token that count here, not those assigned in the database.
pub base_queryset_own :
    (jwt : Jwt) (parameters : RequestParameters) (w : World) (ts : List Transaction) (c : ℕ)
    → base_queryset jwt parameters w ≡ ok ts
    → member (Context.customer c) jwt.learner_contexts ≡ true
    → member (Context.customer c) jwt.admin_operator_contexts ≡ false
    → member Context.all_access jwt.admin_operator_contexts ≡ false
    → All (ElsewhereOrOwn w.subsidies jwt c) ts
unfolding base_queryset learner_only_contexts
base_queryset_own jwt parameters w ts c h l a all =
    filter_result-All (ElsewhereOrOwn w.subsidies jwt c) (matches_parameters w.subsidies parameters)
      (restrict w.subsidies jwt.user_id (learner_only_contexts jwt) w.transactions) ts h
      λ found e.
        All-map (λ t. own_or_elsewhere w.subsidies jwt.user_id c t ≡ true)
          (ElsewhereOrOwn w.subsidies jwt c) found (own-ElsewhereOrOwn w.subsidies jwt c)
          (restrict-own w.subsidies jwt.user_id (learner_only_contexts jwt) w.transactions found c e
            (rw all (
              member-filter c (λ d. not (member d jwt.admin_operator_contexts)) jwt.learner_contexts
                (ap not a) l)))
