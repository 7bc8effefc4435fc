-- ===== src/Aa/Account.antt =====
-- eth/aa/light_account.go: the account contract that an owner's operations come from. The node's
-- replies and the ABI encoding of the contracts are parameters; a panic is an error of its own.
use chain_stresser.Common.{
  ℕ, ◌%◌, ◌^◌, Bool, true, false, not, ◌&&◌, Option, List, [], ◌∷◌, ◌++◌, Result, ok, err, ◌>>=◌,
  if◌then◌else◌, ltb, ◌==◌, length,
}
use chain_stresser.Common.Bytes.{Bytes, eq_bytes}
use chain_stresser.Common.Int.{ℤ, pos, to_int}
use chain_stresser.Aa.UserOp.{Geth, zero_address, UserOperation}
use chain_stresser.Aa.Signer.{
  AaError, panics, failed_to_dial, failed_to_get_chain_id, chain_id_mismatch,
  failed_to_read_address, address_not_set, failed_to_get_code, failed_to_get_nonce,
  failed_to_get_balance, no_gas_estimates, failed_to_pack, or_error,
}

pub record LightAccount : Type 0 where
  pub entrypoint_address : Bytes
  pub account_factory_address : Bytes
  pub account_address : Bytes
  pub eoa_owner : Bytes
  pub salt : ℕ
  pub is_deployed : Bool

-- What the node answers, `none` for an error: `ChainID`, `CallContract` with sender, receiver and
-- data, `CodeAt`, and the entry point's `GetNonce` and `BalanceOf`.
pub record Node : Type 0 where
  pub chain_id : Option ℤ
  pub call_contract : Bytes → Bytes → Bytes → Option Bytes
  pub code_at : Bytes → Option Bytes
  pub get_nonce : Bytes → ℕ → Option ℕ
  pub balance_of : Bytes → Option ℕ

-- `Pack` of the bindings: `createAccount` of an owner and a salt, `execute` of a contract, a value
-- and data, `depositTo` of an account.
pub record Abi : Type 0 where
  pub pack_create_account : Bytes → ℤ → Option Bytes
  pub pack_execute : Bytes → ℕ → Bytes → Option Bytes
  pub pack_deposit_to : Bytes → Option Bytes

-- `UserOperationGasEstimates`
pub record GasEstimates : Type 0 where
  pub call_gas_limit : ℤ
  pub verification_gas_limit : ℤ
  pub pre_verification_gas : ℤ
  pub max_fee_per_gas : ℤ
  pub max_priority_fee_per_gas : ℤ

-- `createAccountCallData` tests the argument and takes the field.
abbrev pub salt_big : LightAccount → ℕ → ℤ
salt_big la salt = if not (salt == 0) then to_int la.salt else pos 0

module _ (abi : Abi) where
  -- `createAccountCallData`
  unfoldable pub create_account_call_data : LightAccount → Bytes → ℕ → Result AaError Bytes
  create_account_call_data la eoa_owner salt =
      or_error panics (abi.pack_create_account eoa_owner (salt_big la salt))

  -- `initCode`
  unfoldable pub init_code : LightAccount → Result AaError Bytes
  init_code la = do
    factory_call_data ← create_account_call_data la la.eoa_owner la.salt
    ok (la.account_factory_address ++ factory_call_data)

  -- `if !la.isDeployed && nonce == 0 { initCode = la.initCode() }`
  unfoldable pub op_init_code : LightAccount → ℕ → Result AaError Bytes
  unfolding init_code
  op_init_code la nonce = if not la.is_deployed && nonce == 0 then init_code la else ok []

  -- The operation of `newUserOperation`.
  abbrev pub user_operation : LightAccount → ℕ → GasEstimates → Bytes → Bytes → UserOperation
  user_operation la nonce gas init_code call_data = record {
    sender = la.account_address;
    nonce = to_int nonce;
    init_code = init_code;
    call_data = call_data;
    call_gas_limit = gas.call_gas_limit;
    verification_gas_limit = gas.verification_gas_limit;
    pre_verification_gas = gas.pre_verification_gas;
    max_fee_per_gas = gas.max_fee_per_gas;
    max_priority_fee_per_gas = gas.max_priority_fee_per_gas;
    paymaster = zero_address;
    paymaster_verification_gas_limit = pos 300000;
    paymaster_post_op_gas_limit = pos 0;
    paymaster_data = [];
    signature = [];
  }

  -- `newUserOperation`, which is `NewUserOperationWithNonce`
  unfoldable pub new_user_operation :
      LightAccount → Bytes → Bytes → ℕ → List GasEstimates → Result AaError UserOperation
  unfolding op_init_code
  new_user_operation la contract_address call_data nonce [] = err no_gas_estimates
  new_user_operation la contract_address call_data nonce (gas ∷ _) = do
    execute_call_data ← or_error panics (abi.pack_execute contract_address 0 call_data)
    code ← op_init_code la nonce
    ok (user_operation la nonce gas code execute_call_data)

  -- `DepositToEntrypointCallData`
  unfoldable pub deposit_to_entrypoint_call_data : LightAccount → Result AaError Bytes
  deposit_to_entrypoint_call_data la = or_error failed_to_pack (abi.pack_deposit_to la.eoa_owner)

module _ (node : Node) where
  -- `Nonce`, its `Uint64` included, and `Balance`
  unfoldable pub nonce : LightAccount → ℕ → Result AaError ℕ
  nonce la key = do
    n ← or_error failed_to_get_nonce (node.get_nonce la.account_address key)
    ok (n % 2 ^ 64)

  unfoldable pub balance : LightAccount → Result AaError ℕ
  balance la = or_error failed_to_get_balance (node.balance_of la.eoa_owner)

  -- `Code`
  unfoldable pub code : LightAccount → Result AaError Bytes
  code la =
      if eq_bytes la.account_address zero_address
      then err address_not_set
      else or_error failed_to_get_code (node.code_at la.account_address)

  -- `IsDeployed`: the account remembers that it is.
  unfoldable pub check_deployed : LightAccount → Result AaError LightAccount
  unfolding code
  check_deployed la =
      if la.is_deployed
      then ok la
      else (code la >>= λ c. ok (record la { is_deployed = ltb 0 (length c) }))

  module _ (abi : Abi) (geth : Geth) where
    -- `Address`: the factory tells the address once.
    unfoldable pub resolve_address : LightAccount → Result AaError LightAccount
    unfolding create_account_call_data
    resolve_address la = if not (eq_bytes la.account_address zero_address) then ok la else do
      call_data ← create_account_call_data abi la la.eoa_owner la.salt
      res ←
          or_error failed_to_read_address
            (node.call_contract la.eoa_owner la.account_factory_address call_data)
      ok (record la { account_address = geth.bytes_to_address res })

    -- `if rpcChainID.Cmp(la.chainID) != 0`
    abbrev pub check_chain_id : ℤ → ℤ → Result AaError ℤ
    check_chain_id (pos a) (pos b) = if a == b then ok (pos a) else err chain_id_mismatch
    check_chain_id (pos a) (ℤ.negsuc b) = err chain_id_mismatch
    check_chain_id (ℤ.negsuc a) (pos b) = err chain_id_mismatch
    check_chain_id (ℤ.negsuc a) (ℤ.negsuc b) =
        if a == b then ok (ℤ.negsuc a) else err chain_id_mismatch

    -- `NewLightAccount`. `dialled` is whether the endpoint could be dialled and the bindings wrapped.
    unfoldable pub new_light_account :
        Bool → ℤ → Bytes → Bytes → Bytes → ℕ → Result AaError LightAccount
    unfolding resolve_address check_deployed
    new_light_account false chain_id entrypoint factory owner salt = err failed_to_dial
    new_light_account true chain_id entrypoint factory owner salt = do
      rpc_chain_id ← or_error failed_to_get_chain_id node.chain_id
      _ ← check_chain_id rpc_chain_id chain_id
      la ← resolve_address (record {
        entrypoint_address = entrypoint;
        account_factory_address = factory;
        account_address = zero_address;
        eoa_owner = owner;
        salt = salt;
        is_deployed = false;
      })
      check_deployed la
