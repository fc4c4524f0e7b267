-- ===== src/Subsidies/Creation.antt =====
-- The answers of the endpoint that creates subsidies.
use edx_enterprise_subsidy.Common.{
  ℕ, ◌≡◌, refl, ◌∙◌, sym, ap, Bool, true, false, Option, none, some, List, leb, is_some, Bool-cases,
  inl, inr,
}
use mathlib.Core.Path.{subst}
use edx_enterprise_subsidy.Common.Int.{ℤ}
use edx_enterprise_subsidy.Schema.Ledger.{Deposit, Transaction}
use edx_enterprise_subsidy.Schema.Subsidy.{Subsidy}
use edx_enterprise_subsidy.Service.{
  Env, World, Result, ok, err, Exec, Exception, proceed, rescue, pure, ◌>>=◌,
}
use edx_enterprise_subsidy.Subsidy.{ledger_or_raise, current_balance, total_deposits}
use edx_enterprise_subsidy.Lifecycle.{get_or_create_learner_credit_subsidy}
use edx_enterprise_subsidy.Lifecycle.Saved.{Saved, GotOrCreated, get_or_create-GotOrCreated}
use edx_enterprise_subsidy.Api.{is_active}
use edx_enterprise_subsidy.Subsidies.Views.{
  SubsidyData, SubsidyCreationRequest, CreationBody, SubsidyResponse, new_subsidy,
  subsidy_serializer, created_or_found, create, on_create_error,
}

-- 201 shows the row that was saved, new and with a ledger; 200 and 500 have changed nothing; and
-- nothing else is answered
abbrev pub Answered : Subsidy → World → Result SubsidyResponse × World → Type 0
Answered new w (ok (SubsidyResponse.created body), v) = Saved true new w (ok body.subsidy, v)
Answered new w (ok (SubsidyResponse.found body), v) = v ≡ w
Answered new w (ok (SubsidyResponse.server_error code), v) = v ≡ w
Answered new w (ok SubsidyResponse.bad_request, v) = ⊥
Answered new w (ok SubsidyResponse.no_content, v) = ⊥
Answered new w (err e, v) = ⊥

is_active_defined :
    (s : Subsidy) (now a b : ℕ)
    → s.active_datetime ≡ some a
    → s.expiration_datetime ≡ some b
    → (x : Bool) × (is_active s now ≡ ok x)
unfolding is_active
is_active_defined s now a b e f = elim (Bool-cases (leb a now)) [
  | inl h ↦ (leb now b, rw (e, f, h) refl)
  | inr h ↦ (false, rw (e, h) refl)
]

module _ (env : Env) where
  -- the serializer past the balance, on a ledger and an answer of `is_active`
  abbrev rest : ℕ → ℤ → Subsidy → Bool → Exec SubsidyData
  rest l balance s x = do
    deposits ← λ w. (ok (env.total_deposits l w), w)
    pure (record {
      subsidy = s;
      current_balance = balance;
      is_active = x;
      total_deposits = deposits;
    })

  abbrev serialized : Option ℕ → (World → Result Bool) → Subsidy → Exec SubsidyData
  serialized ledger active s = do
    balance ← ledger_or_raise ledger >>= λ l w. (ok (env.balance l w), w)
    x ← λ w. (active w, w)
    deposits ← ledger_or_raise ledger >>= λ l w. (ok (env.total_deposits l w), w)
    pure (record {
      subsidy = s;
      current_balance = balance;
      is_active = x;
      total_deposits = deposits;
    })

  rest_reads :
      (l : ℕ) (balance : ℤ) (s : Subsidy) (active : Result Bool) (w : World)
      → (proceed active (rest l balance s) w).1 ≡ w
  rest_reads l balance s (ok x) w = refl
  rest_reads l balance s (err e) w = refl

  serialized_reads :
      (ledger : Option ℕ) (active : World → Result Bool) (s : Subsidy) (w : World)
      → (serialized ledger active s w).1 ≡ w
  serialized_reads none active s w = refl
  serialized_reads (some l) active s w = rest_reads l (env.balance l w) s (active w) w

  pub serializer_reads : (s : Subsidy) (w : World) → (subsidy_serializer env s w).1 ≡ w
  unfolding subsidy_serializer current_balance total_deposits
  serializer_reads s w = serialized_reads s.ledger (λ v. is_active s (env.now v)) s w

  serializer_total :
      (s : Subsidy) (w : World) (ledger a b : ℕ)
      → s.ledger ≡ some ledger
      → s.active_datetime ≡ some a
      → s.expiration_datetime ≡ some b
      → (body : SubsidyData) × (subsidy_serializer env s w ≡ (ok body, w)) × (body.subsidy ≡ s)
  unfolding subsidy_serializer current_balance total_deposits
  serializer_total s w ledger a b has_ledger e f =
      let (x, g) = is_active_defined s (env.now w) a b e f in
      (
        record {
          subsidy = s;
          current_balance = env.balance ledger w;
          is_active = x;
          total_deposits = env.total_deposits ledger w;
        },
        ap (λ l. serialized l (λ v. is_active s (env.now v)) s w) has_ledger
            ∙ ap (λ r. proceed r (rest ledger (env.balance ledger w) s) w) g,
        refl,
      )

  module _ (create_ledger : Subsidy → World → Result (ℕ × List Transaction × List Deposit)) where
    on_error-Answered :
        (new : Subsidy) (e : Exception) (w : World) → Answered new w (on_create_error e w)
    on_error-Answered new Exception.multiple_objects_returned w = refl
    on_error-Answered new _ w = refl

    -- the block that `create` guards, once the row was got or created
    abbrev guarded : Result (Subsidy × Bool) × World → Result SubsidyResponse × World
    guarded (r, v) =
        let (q, v') = proceed r (created_or_found env create_ledger) v in
        rescue q on_create_error v'

    found-Answered :
        (new : Subsidy) (w : World) (q : Result SubsidyData) (v : World)
        → v ≡ w
        → let (r, v') = proceed q (λ body. pure (SubsidyResponse.found body)) v in
          Answered new w (rescue r on_create_error v')
    found-Answered new w (ok body) v e = e
    found-Answered new w (err x) v e =
        subst (λ u. Answered new u (on_create_error x v)) e (on_error-Answered new x v)

    created-Answered :
        (new s : Subsidy) (w v : World) (ledger a b : ℕ)
        → Saved true new w (ok s, v)
        → s.ledger ≡ some ledger
        → s.active_datetime ≡ some a
        → s.expiration_datetime ≡ some b
        → Answered new w (guarded (ok (s, true), v))
    created-Answered new s w v ledger a b saved has_ledger e f =
        let (body, done, same) = serializer_total s v ledger a b has_ledger e f in
        subst
          (λ r.
            let (q, u) = proceed r.0 (λ d. pure (SubsidyResponse.created d)) r.1 in
            Answered new w (rescue q on_create_error u))
          (sym done) (subst (λ x. Saved true new w (ok x, v)) (sym same) saved)

    has_some : (o : Option ℕ) → is_some o ≡ true → (l : ℕ) × (o ≡ some l)
    has_some none h = cc
    has_some (some l) h = (l, refl)

    guarded-Answered :
        (new : Subsidy) (w : World) (a b : ℕ) (r : Result (Subsidy × Bool) × World)
        → GotOrCreated new w r
        → new.active_datetime ≡ some a
        → new.expiration_datetime ≡ some b
        → Answered new w (guarded r)
    guarded-Answered new w a b (ok (s, true), v) got e f =
        let row = got.1 in
        let (l, has_ledger) = has_some s.ledger (got.2 refl) in
        created-Answered new s w v l a b got has_ledger (ap (λ x. x.active_datetime) row ∙ e)
          (ap (λ x. x.expiration_datetime) row ∙ f)
    guarded-Answered new w a b (ok (s, false), v) got e f =
        found-Answered new w (subsidy_serializer env s v).0 (subsidy_serializer env s v).1
          (serializer_reads s v ∙ got)
    guarded-Answered new w a b (err x, v) got e f =
        subst (λ u. Answered new u (on_create_error x v)) got (on_error-Answered new x v)

    -- A valid request to create a subsidy is always answered: 201 with a row that is now in the table,
    -- with a ledger and with what the request asks for; or 200 or 500, and then nothing has changed.
    -- Neither reversals nor events are written.
    pub create-Answered :
        (uuid : ℕ) (request : SubsidyCreationRequest) (w : World)
        → Answered
            (new_subsidy uuid request)
            w
            (create env create_ledger uuid (CreationBody.valid request) w)
    unfolding create
    create-Answered uuid request w =
        let new = new_subsidy uuid request in
        guarded-Answered new w request.default_active_datetime request.default_expiration_datetime
          (get_or_create_learner_credit_subsidy create_ledger new w)
          (get_or_create-GotOrCreated create_ledger new w) refl refl
