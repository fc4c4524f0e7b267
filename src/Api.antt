-- ===== src/Api.antt =====
-- The endpoints that redeem: `create` of apps/api/v1/views/transaction.py; `create` of
-- apps/api/v2/views/transaction.py with its serializer in apps/api/v1/serializers.py and the codes of
-- apps/api/exceptions.py; and `can_redeem` and `get_subsidy_by_uuid` of apps/subsidy/api.py. An
-- exception that an endpoint does not catch stays the exception. The permission checks and the
-- validation by the REST framework come before; the texts of the errors are left out.
pub mod Creation
pub mod BadRequest
pub mod Redeemable
pub mod ContentView
use edx_enterprise_subsidy.Common.{
  ℕ, String, Bool, true, false, not, ◌&&◌, Option, none, some, List, [], ◌∷◌, ◌==◌, if◌then◌else◌,
  leb, find, truthy_text,
}
use edx_enterprise_subsidy.Common.Int.{ℤ}
use edx_enterprise_subsidy.Schema.Ledger.{Transaction, Metadata}
use edx_enterprise_subsidy.Schema.Subsidy.{Subsidy}
use edx_enterprise_subsidy.Service.{
  Env, World, Result, ok, err, Exec, Exception, pure, raise, gets, lift, proceed, rescue, catch,
  ◌>>=◌, ◌>>◌,
}
use edx_enterprise_subsidy.Subsidy.{
  price_for_content, is_redeemable, get_committed_transaction_no_reversal,
  transactions_for_learner_and_content,
}
use edx_enterprise_subsidy.Redemption.{redeem}

pub data ErrorCode : Type 0 where
  enrollment_error content_not_found invalid_requested_price transaction_creation_error : ErrorCode
  ledger_lock_error inactive_subsidy_creation_error fulfillment_error : ErrorCode
  deposit_creation_error : ErrorCode

pub data Response : Type 0 where
  created : Transaction → Response
  found : Transaction → Response
  -- a body with an "Error" or a code
  error : ℕ → Option ErrorCode → Response

abbrev pub status : Response → ℕ
status (Response.created t) = 201
status (Response.found t) = 200
status (Response.error code e) = code

abbrev unprocessable : ErrorCode → Response
unprocessable code = Response.error 422 (some code)

-- `Subsidy.objects.get(uuid=...)`, whose manager leaves out the soft-deleted rows
abbrev pub active_subsidy : ℕ → World → Option Subsidy
active_subsidy u w = find (λ s. s.uuid == u && not s.is_soft_deleted) w.subsidies

abbrev pub customer_of : Option Subsidy → Option ℕ
customer_of none = none
customer_of (some s) = some s.enterprise_customer_uuid

-- `Subsidy.is_active`; a comparison with None raises TypeError
unfoldable pub is_active : Subsidy → ℕ → Result Bool
is_active self now = elim self.active_datetime [
  | none ↦ err Exception.type_error
  | some active ↦
      if leb active now
      then (elim self.expiration_datetime [
        | none ↦ err Exception.type_error
        | some expiration ↦ ok (leb now expiration)
      ])
      else ok false
]

-- `validated_data` of the TransactionCreationRequestSerializer
pub record ValidatedData : Type 0 where
  pub idempotency_key : Option String
  pub lms_user_id : ℕ
  pub content_key : String
  pub subsidy_access_policy_uuid : ℕ
  pub metadata : Option Metadata
  pub requested_price_cents : Option ℤ

-- the body of a request to v1; the uuids are texts
pub record RequestData : Type 0 where
  pub subsidy_uuid : Option String
  pub lms_user_id : Option ℕ
  pub content_key : Option String
  pub subsidy_access_policy_uuid : Option String
  pub metadata : Option Metadata

-- the `except` clauses of the serializer, where TransactionCreationError is `other`
abbrev pub on_serializer_error : {A : Type 0} → Exception → Exec A
on_serializer_error Exception.ledger_lock_attempt_failed =
    raise Exception.ledger_lock_attempt_failed
on_serializer_error (Exception.http_error code) = raise (Exception.http_error code)
on_serializer_error Exception.content_not_found = raise Exception.content_not_found
on_serializer_error Exception.price_validation = raise Exception.price_validation
on_serializer_error Exception.fulfillment = raise Exception.fulfillment
on_serializer_error Exception.invalid_fulfillment_metadata =
    raise Exception.invalid_fulfillment_metadata
on_serializer_error _ = raise Exception.other

abbrev pub transaction_or_error : Option Transaction × Bool → Exec (Transaction × Bool)
transaction_or_error (none, is_new) = raise Exception.other
transaction_or_error (some t, is_new) = pure (t, is_new)

-- 201, or 200 if the flag says that the transaction was there already
abbrev pub respond : Transaction × Bool → Response
respond (t, true) = Response.created t
respond (t, false) = Response.found t

-- the `except` clauses of the view of v2
abbrev pub on_creation_error : Exception → Exec Response
on_creation_error Exception.ledger_lock_attempt_failed =
    pure (Response.error 429 (some ErrorCode.ledger_lock_error))
on_creation_error (Exception.http_error code) = pure (unprocessable ErrorCode.enrollment_error)
on_creation_error Exception.content_not_found = pure (unprocessable ErrorCode.content_not_found)
on_creation_error Exception.price_validation =
    pure (unprocessable ErrorCode.invalid_requested_price)
on_creation_error Exception.fulfillment = pure (unprocessable ErrorCode.fulfillment_error)
on_creation_error Exception.invalid_fulfillment_metadata =
    pure (unprocessable ErrorCode.fulfillment_error)
on_creation_error Exception.other = pure (unprocessable ErrorCode.transaction_creation_error)
on_creation_error e = raise e

-- the `except` clauses of the view of v1
abbrev pub on_redeem_error : Exception → Exec Response
on_redeem_error Exception.ledger_lock_attempt_failed = pure (Response.error 429 none)
on_redeem_error Exception.content_not_found = pure (Response.error 422 none)
on_redeem_error e = raise e

abbrev pub response_of : Option Transaction × Bool → Response
response_of (none, is_new) = Response.error 422 none
response_of (some t, is_new) = respond (t, is_new)

abbrev truthy_id : Option ℕ → Bool
truthy_id none = false
truthy_id (some n) = not (n == 0)

abbrev pub has_required_fields : RequestData → Bool
has_required_fields body =
    truthy_text body.subsidy_uuid
    && (truthy_id body.lms_user_id
        && (truthy_text body.content_key && truthy_text body.subsidy_access_policy_uuid))

abbrev or_zero : Option ℕ → ℕ
or_zero none = 0
or_zero (some n) = n

abbrev or_no_text : Option String → String
or_no_text none = ""
or_no_text (some s) = s

module _ (env : Env) where
  abbrev pub subsidy_or_raise : Option Subsidy → Exec Subsidy
  subsidy_or_raise none = raise Exception.does_not_exist
  subsidy_or_raise (some subsidy) = pure subsidy

  -- `get_subsidy_by_uuid(subsidy_uuid, should_raise=True)`
  unfoldable pub get_subsidy_by_uuid : ℕ → Exec Subsidy
  get_subsidy_by_uuid u = gets (active_subsidy u) >>= subsidy_or_raise

  -- `redeem` on the fields of the validated data
  abbrev pub redeem_validated : Subsidy → ValidatedData → Exec (Option Transaction × Bool)
  redeem_validated subsidy validated =
      redeem env subsidy validated.lms_user_id validated.content_key
        validated.subsidy_access_policy_uuid validated.idempotency_key
        validated.requested_price_cents validated.metadata

  -- `TransactionCreationRequestSerializer.create`, with the flag it leaves with the view
  unfoldable pub serializer_create : Subsidy → ValidatedData → Exec (Transaction × Bool)
  serializer_create subsidy validated =
      catch (redeem_validated subsidy validated) on_serializer_error >>= transaction_or_error

  unfoldable pub create_v2 : ℕ → ValidatedData → Exec Response
  unfolding get_subsidy_by_uuid serializer_create
  create_v2 subsidy_uuid validated = do
    subsidy ← get_subsidy_by_uuid subsidy_uuid
    active ← λ w. (is_active subsidy (env.now w), w)
    if active
        then catch (serializer_create subsidy validated >>= λ saved. pure (respond saved))
            on_creation_error
        else pure (unprocessable ErrorCode.inactive_subsidy_creation_error)

  abbrev pub redeem_v1 : RequestData → ℕ → Option Subsidy → Exec Response
  redeem_v1 body policy none = pure (Response.error 400 none)
  redeem_v1 body policy (some subsidy) =
      catch
        (redeem env subsidy (or_zero body.lms_user_id) (or_no_text body.content_key) policy none
            none body.metadata
          >>= λ redeemed. pure (response_of redeemed))
        on_redeem_error

  -- the two uuids, as `UUID` has parsed them
  abbrev pub create_parsed : RequestData → Option ℕ → Option ℕ → Exec Response
  create_parsed body (some subsidy_uuid) (some policy) =
      gets (active_subsidy subsidy_uuid) >>= redeem_v1 body policy
  create_parsed body _ _ = pure (Response.error 400 none)

  -- the first argument is `UUID`, or none where it raises
  unfoldable pub create_v1 : (String → Option ℕ) → RequestData → Exec Response
  create_v1 parse_uuid body =
      if has_required_fields body
      then create_parsed body (parse_uuid (or_no_text body.subsidy_uuid))
          (parse_uuid (or_no_text body.subsidy_access_policy_uuid))
      else pure (Response.error 400 none)

  abbrev pub price_if_redeemable : Subsidy → String → Option Transaction → Exec (Bool × ℕ)
  price_if_redeemable subsidy content_key none = is_redeemable env subsidy content_key none
  price_if_redeemable subsidy content_key (some existing) = do
    price ← price_for_content env subsidy content_key
    pure (false, price)

  unfoldable pub can_redeem : Subsidy → ℕ → String → Exec (Bool × Bool × ℕ × List Transaction)
  can_redeem subsidy lms_user_id content_key = do
    existing ← gets (get_committed_transaction_no_reversal subsidy lms_user_id content_key)
    active ← λ w. (is_active subsidy (env.now w), w)
    (redeemable, price) ← price_if_redeemable subsidy content_key existing
    all_transactions ← gets (transactions_for_learner_and_content subsidy lms_user_id content_key)
    pure (redeemable, active, price, all_transactions)
