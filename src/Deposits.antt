-- ===== src/Deposits.antt =====
-- The creation of deposits: DepositAdminCreate of apps/api/v2/views/deposit.py, its serializer in
-- apps/api/v2/serializers/deposits.py, `get_subsidy_customer_uuid_from_view` of apps/api/utils.py and
-- DepositCreationAPIException of apps/api/exceptions.py. What the REST framework validates comes
-- before and is a value; metadata that is no mapping is left out.
pub mod Created
use edx_enterprise_subsidy.Common.{
  ℕ, String, Bool, true, false, not, Option, none, some, List, [], ◌∷◌, if◌then◌else◌, any, str_eq,
}
use edx_enterprise_subsidy.Common.Int.{ℤ}
use edx_enterprise_subsidy.Schema.Ledger.{Transaction, Deposit, NewDeposit, Metadata}
use edx_enterprise_subsidy.Schema.Subsidy.{Subsidy}
use edx_enterprise_subsidy.Service.{
  Env, World, Result, ok, err, Exec, Exception, pure, raise, raise_if, gets, proceed, rescue, catch,
  ◌>>=◌, ◌>>◌,
}
use edx_enterprise_subsidy.Access.{Rbac, Permission, has_perm}
use edx_enterprise_subsidy.Api.{
  customer_of, ErrorCode, active_subsidy, is_active, get_subsidy_by_uuid,
}

-- `validated_data` of the DepositCreationRequestSerializer
pub record DepositData : Type 0 where
  pub desired_deposit_quantity : ℤ
  pub sales_contract_reference_id : String
  pub sales_contract_reference_provider : String
  pub idempotency_key : Option String
  pub metadata : Option Metadata

-- 201, or 200 if the view's flag says that the deposit was there; 403; and 422 with a code
pub data DepositResponse : Type 0 where
  created found : Deposit → DepositResponse
  forbidden : DepositResponse
  unprocessable : ErrorCode → DepositResponse

-- `get_subsidy_customer_uuid_from_view`
unfoldable pub get_subsidy_customer_uuid_from_view : ℕ → World → Option ℕ
get_subsidy_customer_uuid_from_view subsidy_uuid w = customer_of (active_subsidy subsidy_uuid w)

abbrev or_empty : Option Metadata → Metadata
or_empty none = []
or_empty (some metadata) = metadata

-- the names of the arguments that are passed beside the metadata
abbrev is_argument : String → Bool
is_argument k = any (str_eq k) (
    "ledger" ∷ "quantity" ∷ "sales_contract_reference_id" ∷ "sales_contract_reference_provider"
    ∷ "idempotency_key" ∷ [])

-- Python refuses an argument that is passed twice
abbrev pub is_passed_twice : Metadata → Bool
is_passed_twice metadata = any (λ entry. is_argument entry.0) metadata

abbrev pub new_deposit : Subsidy → DepositData → NewDeposit
new_deposit subsidy validated = record {
  ledger_uuid = subsidy.ledger;
  quantity = validated.desired_deposit_quantity;
  sales_contract_reference_id = validated.sales_contract_reference_id;
  sales_contract_reference_provider = validated.sales_contract_reference_provider;
  idempotency_key = validated.idempotency_key;
  metadata = or_empty validated.metadata;
}

-- the writes of `openedx_ledger.api.create_deposit`, whose answer decides what is stored
abbrev pub store_deposit :
    Result (Option Deposit × List Transaction × List Deposit) → Exec (Option Deposit)
store_deposit (ok (deposit, rows, deposits)) w =
    (ok deposit, record w { transactions = rows; deposits = deposits })
store_deposit (err e) w = (err e, w)

-- the `except` clause of the serializer
abbrev pub on_ledger_error : {A : Type 0} → Exception → Exec A
on_ledger_error Exception.ledger_deposit_creation = raise Exception.deposit_creation
on_ledger_error e = raise e

abbrev pub deposit_or_error : Option Deposit → Exec (Deposit × Bool)
deposit_or_error none = raise Exception.deposit_creation
deposit_or_error (some deposit) = pure (deposit, true)

-- 201, or 200 if the flag says that the deposit was there
abbrev pub respond : Deposit × Bool → DepositResponse
respond (deposit, true) = DepositResponse.created deposit
respond (deposit, false) = DepositResponse.found deposit

-- the `except` clause of the view, with the default code of DepositCreationAPIException
abbrev pub on_creation_error : Exception → Exec DepositResponse
on_creation_error (Exception.http_error code) =
    pure (DepositResponse.unprocessable ErrorCode.deposit_creation_error)
on_creation_error Exception.deposit_creation =
    pure (DepositResponse.unprocessable ErrorCode.deposit_creation_error)
on_creation_error e = raise e

module _ (env : Env) where
  -- the call of `openedx_ledger.api.create_deposit`
  unfoldable pub call_create_deposit : Subsidy → DepositData → Exec (Option Deposit)
  call_create_deposit subsidy validated = do
    raise_if (is_passed_twice (or_empty validated.metadata)) Exception.type_error
    λ w. store_deposit (env.create_deposit (new_deposit subsidy validated) w) w

  -- `DepositCreationRequestSerializer.create`, with the flag it leaves with the view
  unfoldable pub serializer_create_deposit : Subsidy → DepositData → Exec (Deposit × Bool)
  unfolding call_create_deposit
  serializer_create_deposit subsidy validated =
      catch (call_create_deposit subsidy validated) on_ledger_error >>= deposit_or_error

  -- `DepositAdminCreate.create` for a user who has the permission
  unfoldable pub create_deposit : ℕ → DepositData → Exec DepositResponse
  unfolding get_subsidy_by_uuid serializer_create_deposit
  create_deposit subsidy_uuid validated = do
    subsidy ← get_subsidy_by_uuid env subsidy_uuid
    active ← λ w. (is_active subsidy (env.now w), w)
    if active
        then catch (serializer_create_deposit subsidy validated >>= λ saved. pure (respond saved))
            on_creation_error
        else pure (DepositResponse.unprocessable ErrorCode.inactive_subsidy_creation_error)

  -- with its decorator `permission_required`
  unfoldable pub deposit_admin_create : Rbac → ℕ → DepositData → Exec DepositResponse
  unfolding create_deposit get_subsidy_customer_uuid_from_view
  deposit_admin_create rbac subsidy_uuid validated = do
    context ← gets (get_subsidy_customer_uuid_from_view subsidy_uuid)
    if has_perm rbac context Permission.can_create_deposits
        then create_deposit subsidy_uuid validated
        else pure DepositResponse.forbidden
