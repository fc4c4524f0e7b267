-- ===== src/Api/Creation.antt =====
-- The answers of the creation endpoint of v2.
use edx_enterprise_subsidy.Common.{ℕ, ◌≡◌, refl, Bool, true, false, Option, none, some}
use edx_enterprise_subsidy.Schema.Ledger.{Transaction}
use edx_enterprise_subsidy.Schema.Subsidy.{Subsidy}
use edx_enterprise_subsidy.Service.{
  Env, World, Result, ok, err, Exec, Exception, proceed, rescue, catch, pure,
}
use edx_enterprise_subsidy.Api.{
  Response, status, ValidatedData, active_subsidy, is_active, redeem_validated, create_v2,
  serializer_create, get_subsidy_by_uuid, on_serializer_error, transaction_or_error,
  on_creation_error, respond,
}

-- The answer that the documentation of the endpoint gives for the ways in which `redeem` ends: 201 for
-- a new transaction, 200 for one that was there, 429 for a lock that was not obtained, and 422 for
-- all else.
abbrev pub documented : Result (Option Transaction × Bool) → ℕ
documented (ok (some t, true)) = 201
documented (ok (some t, false)) = 200
documented (ok (none, is_new)) = 422
documented (err Exception.ledger_lock_attempt_failed) = 429
documented (err e) = 422

-- the block that the view guards, after `redeem` has ended
abbrev guarded : Result (Option Transaction × Bool) → Exec Response
guarded r w =
    catch
      (λ v.
        let (q, v') = rescue r on_serializer_error v in
        let (p, u) = proceed q transaction_or_error v' in
        proceed p (λ saved. pure (respond saved)) u)
      on_creation_error w

-- the answer, and the state, which it leaves
abbrev pub Answers : Result Response × World → ℕ → World → Type 0
Answers (ok response, v) code w = (status response ≡ code) × (v ≡ w)
Answers (err e, v) code w = ⊥

guarded-Answers :
    (r : Result (Option Transaction × Bool)) (w : World) → Answers (guarded r w) (documented r) w
guarded-Answers (ok (some t, true)) w = (refl, refl)
guarded-Answers (ok (some t, false)) w = (refl, refl)
guarded-Answers (ok (none, is_new)) w = (refl, refl)
guarded-Answers (err Exception.ledger_lock_attempt_failed) w = (refl, refl)
guarded-Answers (err _) w = (refl, refl)

module _ (env : Env) (subsidy_uuid : ℕ) (validated : ValidatedData) (w : World) where
  -- For an existing and active subsidy the endpoint of v2 never fails with an exception: its status is
  -- 201 if `redeem` has made a new transaction, 200 if there was one already, 429 if the ledger's
  -- lock was not obtained, and 422 for every other exception and for a refused redemption; and
  -- what `redeem` has written stays.
  pub create_v2-Answers :
      (subsidy : Subsidy)
      → active_subsidy subsidy_uuid w ≡ some subsidy
      → is_active subsidy (env.now w) ≡ ok true
      → let (r, v) = redeem_validated env subsidy validated w in
        Answers (create_v2 env subsidy_uuid validated w) (documented r) v
  unfolding create_v2 serializer_create get_subsidy_by_uuid
  create_v2-Answers subsidy found active =
      let (r, v) = redeem_validated env subsidy validated w in
      rw (found, active) (guarded-Answers r v)
