-- ===== src/Subsidies/Reachable.antt =====
-- Sequences of requests to the endpoints that write subsidies, as steps of the service.
use edx_enterprise_subsidy.Common.{ℕ, ◌≡◌, sym, String, Option, none, List}
use mathlib.Core.Path.{subst}
use edx_enterprise_subsidy.Schema.Ledger.{Deposit, Transaction}
use edx_enterprise_subsidy.Schema.Subsidy.{Subsidy}
use edx_enterprise_subsidy.Service.{Env, World, Result}
use edx_enterprise_subsidy.Subsidies.{SubsidyRequest}
use edx_enterprise_subsidy.Subsidies.Views.{CreationBody, SubsidyUpdate, create, update, destroy}
use edx_enterprise_subsidy.Subsidies.Kept.{subsidy_row, Keeps}
use edx_enterprise_subsidy.Subsidies.Preserves.{
  SubsidiesOk, Preserves, Preserves-refl, Preserves-trans, create-Preserves, update-Preserves,
  destroy-Preserves,
}

-- one request, however it is answered; `uuid4` gives a new subsidy a uuid that no row has
pub data Step (env : Env)
    (create_ledger : Subsidy → World → Result (ℕ × List Transaction × List Deposit))
    (parse_uuid : String → Option ℕ) (w v : World) : Type 0 where
  creates :
      (uuid : ℕ) (body : CreationBody)
      → subsidy_row uuid w ≡ none
      → v ≡ (create env create_ledger uuid body w).1
      → Step env create_ledger parse_uuid w v
  updates :
      (request : SubsidyRequest) (body : Result SubsidyUpdate)
      → v ≡ (update env create_ledger parse_uuid request body w).1
      → Step env create_ledger parse_uuid w v
  destroys :
      (request : SubsidyRequest)
      → v ≡ (destroy env create_ledger parse_uuid request w).1
      → Step env create_ledger parse_uuid w v

-- the states after any number of requests
pub data Reachable (env : Env)
    (create_ledger : Subsidy → World → Result (ℕ × List Transaction × List Deposit))
    (parse_uuid : String → Option ℕ) (w : World) : World → Type 0 where
  start : (v : World) → v ≡ w → Reachable env create_ledger parse_uuid w v
  after :
      (u v : World)
      → Reachable env create_ledger parse_uuid w u
      → Step env create_ledger parse_uuid u v
      → Reachable env create_ledger parse_uuid w v

module _ (env : Env)
    (create_ledger : Subsidy → World → Result (ℕ × List Transaction × List Deposit))
    (parse_uuid : String → Option ℕ) where
  Step-Preserves : (w v : World) → Step env create_ledger parse_uuid w v → Preserves w v
  Step-Preserves w v (Step.creates uuid body fresh e) =
      subst (Preserves w) (sym e) (create-Preserves create_ledger env uuid body w fresh)
  Step-Preserves w v (Step.updates request body e) =
      subst (Preserves w) (sym e) (update-Preserves create_ledger env parse_uuid request body w)
  Step-Preserves w v (Step.destroys request e) =
      subst (Preserves w) (sym e) (destroy-Preserves create_ledger env parse_uuid request w)

  Reachable-Preserves : (w v : World) → Reachable env create_ledger parse_uuid w v → Preserves w v
  Reachable-Preserves w v (Reachable.start _ e) = subst (Preserves w) (sym e) (Preserves-refl w)
  Reachable-Preserves w v (Reachable.after u _ before step) =
      Preserves-trans w u v (Reachable-Preserves w u before) (Step-Preserves u v step)

  -- Whatever requests to create, update and delete subsidies are made in whatever order, and however
  -- each is answered: the references of the subsidies that are neither internal nor soft-deleted
  -- stay unique, the uuids distinct, and every subsidy has a ledger; and no row ever disappears, gets
  -- another ledger or starting balance, or comes back from its soft deletion. This is for a
  -- table for which the former holds at the start.
  pub Reachable-SubsidiesOk :
      (w v : World)
      → Reachable env create_ledger parse_uuid w v
      → SubsidiesOk w
      → SubsidiesOk v × Keeps w v
  Reachable-SubsidiesOk w v reached good = Reachable-Preserves w v reached good
