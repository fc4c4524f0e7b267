-- ===== src/Service.antt =====
-- The running service: its database, caches, event bus and outbound requests as one state, actions
-- on it that may raise, and the environment that answers the requests.
mod State
pub mod Quiet
pub mod KeepsLedger
pub mod Asking
pub mod Inversion
pub use State.*
use edx_enterprise_subsidy.Common.{ℕ, String, Bool, Option, List, ◌∷◌}
use edx_enterprise_subsidy.Common.Int.{ℤ}
use edx_enterprise_subsidy.Schema.Ledger.{
  Transaction, NewTransaction, Reversal, ReversalKey, Deposit, NewDeposit,
}
use edx_enterprise_subsidy.Schema.Catalog.{ContentData}
use edx_enterprise_subsidy.Schema.Remote.{
  Request, Event, EnrollmentResponse, Unenrollment, CustomerData, UserData, AllocationResponse,
}

-- What the program takes from openedx_ledger, from the other services and from the platform. An
-- answer may depend on everything that was written and sent before.
pub record Env : Type 0 where
  -- openedx_ledger: a raise has written nothing, a result comes with the new table
  pub create_transaction : NewTransaction → World → Result (Transaction × List Transaction)
  pub create_deposit :
      NewDeposit → World → Result (Option Deposit × List Transaction × List Deposit)
  pub create_idempotency_key : NewTransaction → World → String
  -- the first argument is the receiver of the signal TRANSACTION_REVERSED
  pub reverse_full_transaction :
      (Reversal → Exec (Unit {0})) → Transaction → ReversalKey → Exec Reversal
  pub balance : ℕ → World → ℤ
  pub total_deposits : ℕ → World → ℤ
  -- of some of a ledger's transactions
  pub subset_balance : ℕ → List Transaction → World → ℤ
  -- the services' answers to the request that was sent last
  pub bulk_enroll : World → Result EnrollmentResponse
  pub cancel_fulfillment : World → Result (Unit {0})
  pub fetch_unenrollments : World → Result (List Unenrollment)
  pub customer_data : World → Result CustomerData
  pub content_metadata : World → Result (List ContentData)
  pub customer_content_metadata : World → Result ContentData
  pub user_data : World → Result (List UserData)
  pub create_allocation : World → Result AllocationResponse
  pub cancel_allocation : World → Result (Unit {0})
  -- the clock, and whether a cached entry has not been evicted
  pub now : World → ℕ
  pub is_cached : World → CacheKey → Bool
  -- `datetime.fromisoformat`, which raises on other texts
  pub fromisoformat : String → Result ℕ

-- Sends a request and takes the answer.
abbrev pub call : {A : Type 0} → Request → (World → Result A) → Exec A
call request answer w = let w' = record w { requests = request ∷ w.requests } in (answer w', w')
