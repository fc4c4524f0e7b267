-- ===== src/Deposits/Created.antt =====
-- The answers of the endpoint that creates deposits.
use edx_enterprise_subsidy.Common.{
  ℕ, ◌≡◌, refl, ◌∙◌, ap, Bool, true, false, Option, none, some, List,
}
use edx_enterprise_subsidy.Schema.Ledger.{Transaction, Deposit}
use edx_enterprise_subsidy.Schema.Subsidy.{Subsidy}
use edx_enterprise_subsidy.Service.{
  Env, World, Result, ok, err, Exec, Exception, proceed, rescue, catch, pure, raise_if, ◌>>◌,
}
use edx_enterprise_subsidy.Access.{
  Rbac, has_perm, has_operator_level_access, _user_has_explicit_access_via_feature_role,
  _user_has_implicit_access_via_feature_role,
}
use edx_enterprise_subsidy.Api.{customer_of, active_subsidy, is_active, get_subsidy_by_uuid}
use edx_enterprise_subsidy.Deposits.{
  DepositData, DepositResponse, deposit_admin_create, create_deposit, serializer_create_deposit,
  call_create_deposit, get_subsidy_customer_uuid_from_view, store_deposit, new_deposit,
  on_ledger_error, deposit_or_error, on_creation_error, respond,
}

-- the deposit that was asked for is the one that the ledger has made, and all that was written
pub record Deposited (env : Env) (rbac : Rbac) (u : ℕ) (validated : DepositData) (w : World)
    (d : Deposit) (v : World) : Type 0 where
  pub subsidy : Subsidy
  pub exists : active_subsidy u w ≡ some subsidy
  pub permitted : has_operator_level_access rbac (some subsidy.enterprise_customer_uuid) ≡ true
  pub active : is_active subsidy (env.now w) ≡ ok true
  pub rows : List Transaction
  pub deposits : List Deposit
  pub made : env.create_deposit (new_deposit subsidy validated) w ≡ ok (some d, rows, deposits)
  pub stored : v ≡ record w { transactions = rows; deposits = deposits }

module _ (env : Env) (rbac : Rbac) (u : ℕ) (validated : DepositData) (w : World) where
  -- how the endpoint, begun at `w`, has ended
  abbrev pub Ended : Result DepositResponse × World → Type 0
  Ended (ok (DepositResponse.created d), v) = Deposited env rbac u validated w d v
  Ended (ok (DepositResponse.found d), v) = ⊥
  Ended (ok DepositResponse.forbidden, v) =
      (v ≡ w) × (has_operator_level_access rbac (get_subsidy_customer_uuid_from_view u w) ≡ false)
  Ended (ok (DepositResponse.unprocessable code), v) = v ≡ w
  Ended (err e, v) = v ≡ w

  -- the guarded block, once the ledger has answered
  abbrev answered : Result (Option Deposit × List Transaction × List Deposit) → Exec DepositResponse
  answered r v =
      let (q, v1) = store_deposit r v in
      let (q', v2) = rescue q on_ledger_error v1 in
      let (p, v3) = proceed q' deposit_or_error v2 in
      let (a, v4) = proceed p (λ saved. pure (respond saved)) v3 in rescue a on_creation_error v4

  answered-Ended :
      (s : Subsidy) (r : Result (Option Deposit × List Transaction × List Deposit))
      → active_subsidy u w ≡ some s
      → has_operator_level_access rbac (some s.enterprise_customer_uuid) ≡ true
      → is_active s (env.now w) ≡ ok true
      → env.create_deposit (new_deposit s validated) w ≡ r
      → ((rows : List Transaction) (deposits : List Deposit) → ¬ (r ≡ ok (none, rows, deposits)))
      → Ended (answered r w)
  answered-Ended s (ok (some d, rows, deposits)) e p a made some_deposit = record {
    subsidy = s;
    exists = e;
    permitted = p;
    active = a;
    rows = rows;
    deposits = deposits;
    made = made;
    stored = refl;
  }
  answered-Ended s (ok (none, rows, deposits)) e p a made some_deposit =
      absurd (some_deposit rows deposits refl)
  answered-Ended s (err Exception.ledger_deposit_creation) e p a made some_deposit = refl
  answered-Ended s (err (Exception.http_error code)) e p a made some_deposit = refl
  answered-Ended s (err Exception.deposit_creation) e p a made some_deposit = refl
  answered-Ended s (err _) e p a made some_deposit = refl

  guarded-Ended :
      (s : Subsidy) (twice : Bool)
      → active_subsidy u w ≡ some s
      → has_operator_level_access rbac (some s.enterprise_customer_uuid) ≡ true
      → is_active s (env.now w) ≡ ok true
      → ((rows : List Transaction) (deposits : List Deposit)
          → ¬ (env.create_deposit (new_deposit s validated) w ≡ ok (none, rows, deposits)))
      → Ended (
          catch
            (λ v.
              let (q, v1) =
                catch
                  (raise_if twice Exception.type_error >> λ x.
                    store_deposit (env.create_deposit (new_deposit s validated) x) x)
                  on_ledger_error
                  v in
              let (p, v2) = proceed q deposit_or_error v1 in
              proceed p (λ saved. pure (respond saved)) v2)
            on_creation_error
            w)
  guarded-Ended s true e p a some_deposit = refl
  guarded-Ended s false e p a some_deposit =
      answered-Ended s (env.create_deposit (new_deposit s validated) w) e p a refl some_deposit

  active-Ended :
      (s : Subsidy) (r : Result Bool)
      → active_subsidy u w ≡ some s
      → has_operator_level_access rbac (some s.enterprise_customer_uuid) ≡ true
      → is_active s (env.now w) ≡ r
      → ((rows : List Transaction) (deposits : List Deposit)
          → ¬ (env.create_deposit (new_deposit s validated) w ≡ ok (none, rows, deposits)))
      → Ended (create_deposit env u validated w)
  unfolding create_deposit serializer_create_deposit call_create_deposit get_subsidy_by_uuid
  active-Ended s (err x) e p a some_deposit = rw (e, a) refl
  active-Ended s (ok false) e p a some_deposit = rw (e, a) refl
  active-Ended s (ok true) e p a some_deposit = rw (e, a) (guarded-Ended s _ e p a some_deposit)

  permitted-Ended :
      (s : Subsidy) (allowed : Bool)
      → active_subsidy u w ≡ some s
      → has_operator_level_access rbac (some s.enterprise_customer_uuid) ≡ allowed
      → ((rows : List Transaction) (deposits : List Deposit)
          → ¬ (env.create_deposit (new_deposit s validated) w ≡ ok (none, rows, deposits)))
      → Ended (deposit_admin_create env rbac u validated w)
  unfolding deposit_admin_create get_subsidy_customer_uuid_from_view has_perm
  permitted-Ended s false e p some_deposit =
      rw (e, p) (refl, ap (λ o. has_operator_level_access rbac (customer_of o)) e ∙ p)
  permitted-Ended s true e p some_deposit =
      rw (e, p) (active-Ended s (is_active s (env.now w)) e p refl some_deposit)

  unknown-Ended : active_subsidy u w ≡ none → Ended (deposit_admin_create env rbac u validated w)
  unfolding deposit_admin_create get_subsidy_customer_uuid_from_view has_perm
      has_operator_level_access _user_has_explicit_access_via_feature_role
      _user_has_implicit_access_via_feature_role
  unknown-Ended e = rw e (refl, ap (λ o. has_operator_level_access rbac (customer_of o)) e)

  subsidy-Ended :
      (o : Option Subsidy)
      → active_subsidy u w ≡ o
      → ((s : Subsidy) (rows : List Transaction) (deposits : List Deposit)
          → ¬ (env.create_deposit (new_deposit s validated) w ≡ ok (none, rows, deposits)))
      → Ended (deposit_admin_create env rbac u validated w)
  subsidy-Ended none e some_deposit = unknown-Ended e
  subsidy-Ended (some s) e some_deposit = permitted-Ended s _ e refl (some_deposit s)

  -- A request to create a deposit that is answered 201 came from an operator of the enterprise of an
  -- existing and active subsidy, and has written exactly what the ledger wrote for the deposit that
  -- the request describes, which it shows; every other end of the request, an answer 403 or 422 or an
  -- exception, has written nothing; 403 is answered only without the operator's role, and so for an
  -- unknown subsidy; and 200 never. For a ledger that has a deposit whenever it returns.
  pub deposit_admin_create-Ended :
      ((s : Subsidy) (rows : List Transaction) (deposits : List Deposit)
        → ¬ (env.create_deposit (new_deposit s validated) w ≡ ok (none, rows, deposits)))
      → Ended (deposit_admin_create env rbac u validated w)
  deposit_admin_create-Ended some_deposit = subsidy-Ended (active_subsidy u w) refl some_deposit
