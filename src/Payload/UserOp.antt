-- ===== src/Payload/UserOp.antt =====
-- payload/eth_userop_stress.go: transactions that carry user operations. The maps of the provider
-- are functions of the account's index; an address in a transaction is the number of its bytes.
pub mod Nonces
pub mod Initial
use chain_stresser.Common.{
  ℕ, zero, suc, ◌+◌, ◌*◌, ◌%◌, ◌^◌, Bool, true, false, Option, none, some, List, [], ◌∷◌, Result,
  ok, err, ◌>>=◌, if◌then◌else◌, leb, length,
}
use chain_stresser.Common.Bytes.{Bytes, eq_bytes}
use chain_stresser.Common.BigEndian.{value}
use chain_stresser.Common.Int.{ℤ, pos}
use chain_stresser.Common.Sums.{update}
use chain_stresser.Payload.Base.{TxRequest, BaseTx}
use chain_stresser.Payload.Bank.{Coin}
use chain_stresser.Payload.Eth.{EthMsg, unsigned_eth, override_min_gas_price}
use chain_stresser.Aa.UserOp.{zero_address, UserOperation, PackedUserOperation}
use chain_stresser.Aa.Signer.{
  AaError, failed_to_pack, light_account_not_found, counter_not_set, bad_min_gas_price,
  failed_to_create_entrypoint, bad_abi, or_error,
}
use chain_stresser.Aa.Account.{
  LightAccount, GasEstimates, Abi, Node, new_user_operation, deposit_to_entrypoint_call_data, nonce,
  balance,
}

pub record UserOpProvider : Type 0 where
  pub min_gas_price : Coin
  pub max_gas_limit_per_user_op : ℕ
  pub max_gas_limit_initial_tx : ℕ
  pub entrypoint_address : Bytes
  pub light_accounts : ℕ → Option LightAccount
  pub light_account_nonces : ℕ → ℕ
  pub counter_contract_address : Bytes

abbrev checked : AaError → Bool → Result AaError Bool
checked e true = ok true
checked e false = err e

-- `NewEthUserOpProvider`. `new_entrypoint` is whether `NewEntrypoint` succeeds; it is handed the
-- address of the account factory where it expects the entry point's.
unfoldable pub new_eth_user_op_provider :
    Option Coin
    → (Bytes → Bytes → Bool)
    → Bool
    → Bytes
    → Bytes
    → Bytes
    → Bytes
    → Result AaError UserOpProvider
unfolding override_min_gas_price
new_eth_user_op_provider price new_entrypoint abi entrypoint beneficiary factory counter = do
  p ← or_error bad_min_gas_price price
  _ ← checked failed_to_create_entrypoint (new_entrypoint factory beneficiary)
  _ ← checked bad_abi abi
  ok (record {
    min_gas_price = override_min_gas_price p;
    max_gas_limit_per_user_op = 42000;
    max_gas_limit_initial_tx = 230000;
    entrypoint_address = entrypoint;
    light_accounts = λ i. none;
    light_account_nonces = λ i. 0;
    counter_contract_address = counter;
  })

abbrev pub ops_per_tx : ℕ
ops_per_tx = 50

-- The estimates of every operation.
abbrev pub estimates : GasEstimates
estimates = record {
  call_gas_limit = pos 22000;
  verification_gas_limit = pos 75000;
  pre_verification_gas = pos 21000;
  max_fee_per_gas = pos 0;
  max_priority_fee_per_gas = pos 0;
}

abbrev pub prepend : {P : Type 0} → P → Result AaError (List P) × ℕ → Result AaError (List P) × ℕ
prepend p (err e, n) = (err e, n)
prepend p (ok ps, n) = (ok (p ∷ ps), n)

-- `p.lightAccountNonces[req.FromIdx]++`, on uint64
abbrev pub next_nonce : ℕ → ℕ
next_nonce n = (n + 1) % 2 ^ 64

-- The rounds that are left of the loop, on the nonce of the account: the operations, and the nonce
-- that the map holds afterwards. It is counted up before the operation is signed.
unfoldable pub user_ops_from :
    {P : Type 0}
    → (ℕ → Result AaError UserOperation)
    → (UserOperation → Result AaError P)
    → ℕ
    → ℕ
    → Result AaError (List P) × ℕ
user_ops_from new sign zero n = (ok [], n)
user_ops_from new sign (suc rounds) n =
    let rest = user_ops_from new sign rounds (next_nonce n) in
    elim (new n) [
      | err e ↦ (err e, n)
      | ok op ↦ elim (sign op) [ err e ↦ (err e, next_nonce n) | ok p ↦ prepend p rest ]
    ]

module _ {Key : Type 0} (abi : Abi) (pack_increase : Option Bytes)
    -- `SignUserOperation` with the key, the entry point and the chain; `HandleOpsCallData`
    (sign : Key → UserOperation → Result AaError PackedUserOperation)
    (handle_ops_call_data : List PackedUserOperation → Bytes → Option Bytes)
    (eth_address : Key → Bytes) where
  -- The transaction of `GenerateTx`, from the operations.
  abbrev pub handle_ops_tx :
      UserOpProvider
      → TxRequest Key
      → Result AaError (List PackedUserOperation)
      → Result AaError (BaseTx Key EthMsg)
  handle_ops_tx p req (err e) = err e
  handle_ops_tx p req (ok ops) = do
    call_data ← or_error failed_to_pack (handle_ops_call_data ops (eth_address req.from.key))
    ok (
        unsigned_eth req (record {
          nonce = req.from.sequence;
          to = some (value p.entrypoint_address);
          value = 0;
          gas = p.max_gas_limit_per_user_op * length ops % 2 ^ 64;
          gas_price = p.min_gas_price.amount;
          input = call_data;
        }))

  abbrev pub ops_of :
      UserOpProvider
      → TxRequest Key
      → LightAccount
      → Bytes
      → Result AaError (List PackedUserOperation) × ℕ
  ops_of p req la call_data =
      user_ops_from
        (λ n. new_user_operation abi la p.counter_contract_address call_data n (estimates ∷ []))
        (sign req.from.key) ops_per_tx (p.light_account_nonces req.from_idx)

  -- The part of `GenerateTx` behind its checks.
  abbrev pub generate_with :
      UserOpProvider
      → TxRequest Key
      → Bytes
      → Option LightAccount
      → Result AaError (BaseTx Key EthMsg) × UserOpProvider
  generate_with p req call_data none = (err light_account_not_found, p)
  generate_with p req call_data (some la) =
      let (ops, n) = ops_of p req la call_data in
      (
        handle_ops_tx p req ops,
        record p { light_account_nonces = update p.light_account_nonces req.from_idx n },
      )

  abbrev pub generate_packed :
      UserOpProvider
      → TxRequest Key
      → Option Bytes
      → Result AaError (BaseTx Key EthMsg) × UserOpProvider
  generate_packed p req none = (err failed_to_pack, p)
  generate_packed p req (some call_data) =
      generate_with p req call_data (p.light_accounts req.from_idx)

  -- `ethUserOpProvider.GenerateTx`
  unfoldable pub user_op_generate_tx :
      UserOpProvider → TxRequest Key → Result AaError (BaseTx Key EthMsg) × UserOpProvider
  unfolding user_ops_from
  user_op_generate_tx p req =
      if eq_bytes p.counter_contract_address zero_address
      then (err counter_not_set, p)
      else generate_packed p req pack_increase

abbrev pub min_account_balance : ℕ
min_account_balance = 10 ^ 18

abbrev pub account_balance_topup : ℕ
account_balance_topup = 15 * 10 ^ 17

-- The transaction that tops up the owner's balance on the entry point.
abbrev pub deposit_tx : {Key : Type 0} → UserOpProvider → TxRequest Key → Bytes → BaseTx Key EthMsg
deposit_tx p req call_data = unsigned_eth req (record {
  nonce = req.from.sequence;
  to = some (value p.entrypoint_address);
  value = account_balance_topup;
  gas = p.max_gas_limit_initial_tx;
  gas_price = p.min_gas_price.amount;
  input = call_data;
})

module _ {Key : Type 0} (abi : Abi) (node : Node)
    -- `NewLightAccount` with the provider's settings, for the owner's address
    (new_light_account : Bytes → Result AaError LightAccount) (eth_address : Key → Bytes) where
  -- The part behind the nonce, which no longer changes the provider.
  abbrev pub topped_up :
      UserOpProvider → TxRequest Key → LightAccount → Result AaError (Option (BaseTx Key EthMsg))
  topped_up p req la = do
    b ← balance node la
    if leb min_account_balance b
        then ok none
        else (deposit_to_entrypoint_call_data abi la >>= λ call_data.
            ok (some (deposit_tx p req call_data)))

  abbrev pub with_nonce :
      UserOpProvider
      → TxRequest Key
      → LightAccount
      → Result AaError ℕ
      → Result AaError (Option (BaseTx Key EthMsg)) × UserOpProvider
  with_nonce p req la (err e) = (err e, p)
  with_nonce p req la (ok n) = (
    topped_up p req la,
    record p { light_account_nonces = update p.light_account_nonces req.from_idx n },
  )

  abbrev pub with_account :
      UserOpProvider
      → TxRequest Key
      → Result AaError LightAccount
      → Result AaError (Option (BaseTx Key EthMsg)) × UserOpProvider
  with_account p req (err e) = (err e, p)
  with_account p req (ok la) =
      with_nonce (record p { light_accounts = update p.light_accounts req.from_idx (some la) }) req
        la (nonce node la 0)

  -- `ethUserOpProvider.GenerateInitialTx`
  unfoldable pub user_op_generate_initial_tx :
      UserOpProvider → TxRequest Key → Result AaError (Option (BaseTx Key EthMsg)) × UserOpProvider
  user_op_generate_initial_tx p req =
      with_account p req (new_light_account (eth_address req.from.key))
