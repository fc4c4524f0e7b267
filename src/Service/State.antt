-- ===== src/Service/State.antt =====
-- Python code that reads and writes the service's state and may raise. What was written before a
-- raise stays written, so the state comes back beside the exception too.
use edx_enterprise_subsidy.Common.{
  ℕ, String, Bool, false, List, ◌≡◌, refl, ◌⊎◌, inl, inr, ◌==◌, str_eq, ◌&&◌, if◌then◌else◌,
}
use edx_enterprise_subsidy.Schema.Ledger.{
  Transaction, Reversal, ExternalTransactionReference, Deposit,
}
use edx_enterprise_subsidy.Schema.Subsidy.{Subsidy}
use edx_enterprise_subsidy.Schema.Catalog.{ContentData}
use edx_enterprise_subsidy.Schema.Remote.{Request, Event, CustomerData, UserData}

-- The exceptions that the program raises or catches by class; `other` is any other exception.
pub data Exception : Type 0 where
  http_error : ℕ → Exception
  ledger_lock_attempt_failed ledger_balance_exceeded content_not_found price_validation : Exception
  fulfillment invalid_fulfillment_metadata enrollment fulfillment_cancelation : Exception
  validation does_not_exist multiple_objects_returned deposit_creation ledger_deposit_creation :
      Exception
  parse_error key_error not_found invalid_request throttled : Exception
  value_error type_error attribute_error zero_division other : Exception

-- The keys of the caches; the code hashes the same parts together with the code's version.
pub data CacheKey : Type 0 where
  content_metadata : String → CacheKey
  customer_content : ℕ → String → CacheKey
  enterprise_customer : ℕ → ℕ → CacheKey
  lms_user : ℕ → CacheKey

abbrev pub same_key : CacheKey → CacheKey → Bool
same_key (content_metadata k) (content_metadata l) = str_eq k l
same_key (customer_content c k) (customer_content d l) = c == d && str_eq k l
same_key (enterprise_customer c t) (enterprise_customer d u) = c == d && t == u
same_key (lms_user u) (lms_user v) = u == v
same_key _ _ = false

-- `events` and `requests` have the newest first.
pub record World : Type 0 where
  pub transactions : List Transaction
  pub reversals : List Reversal
  pub references : List ExternalTransactionReference
  pub deposits : List Deposit
  pub subsidies : List Subsidy
  pub events : List Event
  pub requests : List Request
  pub content_cache : List (CacheKey × ContentData)
  pub customer_cache : List (CacheKey × CustomerData)
  pub user_cache : List (CacheKey × UserData)

pub data Result {ℓ} (A : Type ℓ) : Type ℓ where
  ok : A → Result A
  err : Exception → Result A

abbrev pub Exec {ℓ} : Type ℓ → Type ℓ
Exec A = World → Result A × World

module _ {ℓ} {A : Type ℓ} where
  abbrev pub pure : A → Exec A
  pure a w = (ok a, w)

  abbrev pub raise : Exception → Exec A
  raise e w = (err e, w)

  abbrev pub gets : (World → A) → Exec A
  gets f w = (ok (f w), w)

  abbrev pub lift : Result A → Exec A
  lift r w = (r, w)

  -- the rest of a block, by how the step before it ended
  abbrev pub proceed {κ} : {B : Type κ} → Result A → (A → Exec B) → Exec B
  proceed (ok a) f w = f a w
  proceed (err e) f w = (err e, w)

  -- an `except` clause, by how the guarded block ended
  abbrev pub rescue : Result A → (Exception → Exec A) → Exec A
  rescue (ok a) handler w = (ok a, w)
  rescue (err e) handler w = handler e w

  -- `try: m; except Exception as e: handler e`
  abbrev pub catch : Exec A → (Exception → Exec A) → Exec A
  catch m handler w = let (r, w') = m w in rescue r handler w'

-- `try: m; except Exception: log`
abbrev pub swallow {ℓ} : {A : Type ℓ} → Exec A → Exec (Unit {0})
swallow m w = (ok tt, (m w).1)

infixl 5 ◌>>=◌ ◌>>◌
abbrev pub ◌>>=◌ {ℓ κ} : {A : Type ℓ} {B : Type κ} → Exec A → (A → Exec B) → Exec B
◌>>=◌ m f w = let (r, w') = m w in proceed r f w'

abbrev pub ◌>>◌ {ℓ κ} : {A : Type ℓ} {B : Type κ} → Exec A → Exec B → Exec B
m >> n = m >>= λ _. n

abbrev pub modify : (World → World) → Exec (Unit {0})
modify f w = (ok tt, f w)

abbrev pub raise_if : Bool → Exception → Exec (Unit {0})
raise_if c e w = (if c then err e else ok tt, w)

pub Result-cases {ℓ} :
    {A : Type ℓ} (r : Result A) → ((a : A) × (r ≡ ok a)) ⊎ ((e : Exception) × (r ≡ err e))
Result-cases (ok a) = inl (a, refl)
Result-cases (err e) = inr (e, refl)
