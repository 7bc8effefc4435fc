-- ===== src/Payload/Eth.antt =====
-- payload/eth_send_stress.go, eth_deploy_stress.go, eth_call_stress.go and
-- eth_internal_call_stress.go. An address is the number that its 20 bytes spell, 0 when it is unset.
-- The contracts' code, the encoding of calls and `CreateAddress` are parameters.
pub mod Signer
pub mod Fees
pub mod Provision
use chain_stresser.Common.{
  ℕ, zero, suc, ◌+◌, ◌*◌, ◌%◌, ◌^◌, Bool, true, false, ◌||◌, not, Option, none, some, List, [], ◌∷◌,
  Result, ok, err, ◌>>=◌, if◌then◌else◌, ltb, ◌==◌, length, get_elem?,
}
use mathlib.Core.Option
use chain_stresser.Common.Bytes.{Bytes}
use chain_stresser.Common.Int.{ℤ, to_int}
use chain_stresser.Payload.Base.{Account, TxRequest, BaseTx}
use chain_stresser.Payload.Bank.{Coin, BankError, bad_amount, bad_min_gas_price, parsed, target_idx}

-- go-ethereum's `LegacyTx`, with `Data` as `input`; a deployment has no receiver.
pub record LegacyTx : Type 0 where
  pub nonce : ℕ
  pub to : Option ℕ
  pub value : ℕ
  pub gas : ℕ
  pub gas_price : ℕ
  pub input : Bytes

-- `MsgEthereumTx`, as `NewTxWithData` makes it and `BuildAndSignTx` completes it.
pub record EthMsg : Type 0 where
  pub raw : LegacyTx
  pub signature : Option Bytes
  pub from : Option ℕ

pub data EthError : Type 0 where
  bad_coin : BankError → EthError
  bad_abi : EthError
  contract_address_not_set : EthError
  failed_to_pack : EthError

abbrev pub eip1559_initial_base_fee : ℕ
eip1559_initial_base_fee = 1000000000

-- `ethSendProvider` and `ethDeployProvider`; the denomination of fees is that of `min_gas_price`.
pub record EthSendProvider : Type 0 where
  pub send_amount : Coin
  pub min_gas_price : Coin
  pub max_gas_limit : ℕ

pub record EthDeployProvider : Type 0 where
  pub min_gas_price : Coin
  pub max_gas_limit : ℕ

-- `ethCallProvider` and `ethInternalCallProvider`; only the latter has iterations.
pub record EthCallProvider : Type 0 where
  pub min_gas_price : Coin
  pub max_gas_limit : ℕ
  pub max_gas_limit_deployment : ℕ
  pub iterations : ℕ
  pub contract_address : ℕ

unfoldable pub override_min_gas_price : Coin → Coin
override_min_gas_price c =
    if ltb c.amount eip1559_initial_base_fee
    then record c { amount = eip1559_initial_base_fee }
    else c

abbrev pub coin_result : BankError → Option Coin → Result EthError Coin
coin_result e none = err (bad_coin e)
coin_result e (some c) = ok c

-- `GetAbi` parses the text of the generated bindings.
abbrev pub abi_result : Bool → Result EthError Bool
abi_result true = ok true
abi_result false = err bad_abi

-- The providers that the constructors make of the parsed coins.
abbrev pub eth_send_provider : Coin → Coin → EthSendProvider
eth_send_provider a p = record {
  send_amount = a;
  min_gas_price = override_min_gas_price p;
  max_gas_limit = 21000;
}

abbrev pub eth_deploy_provider : Coin → EthDeployProvider
eth_deploy_provider p = record { min_gas_price = override_min_gas_price p; max_gas_limit = 230000 }

abbrev pub eth_call_provider : Coin → EthCallProvider
eth_call_provider p = record {
  min_gas_price = override_min_gas_price p;
  max_gas_limit = 50000;
  max_gas_limit_deployment = 230000;
  iterations = 0;
  contract_address = 0;
}

-- The gas limit is computed on uint64.
abbrev pub eth_internal_call_provider : ℕ → Coin → EthCallProvider
eth_internal_call_provider iterations p = record {
  min_gas_price = override_min_gas_price p;
  max_gas_limit = (28809 + 2500 * iterations) % 2 ^ 64;
  max_gas_limit_deployment = 320000;
  iterations = iterations;
  contract_address = 0;
}

-- `if iterations == 0 { iterations = defaultEthInternalCallIterations }`
unfoldable pub default_iterations : ℕ → ℕ
default_iterations n = if n == 0 then 100 else n

module _ (parse_coin : Bytes → Option Coin) where
  unfoldable pub new_eth_send_provider : Bytes → Bytes → Result EthError EthSendProvider
  new_eth_send_provider min_gas_price send_amount = do
    a ← coin_result bad_amount (parse_coin send_amount)
    p ← coin_result bad_min_gas_price (parse_coin min_gas_price)
    ok (eth_send_provider a p)

  unfoldable pub new_eth_deploy_provider : Bool → Bytes → Result EthError EthDeployProvider
  new_eth_deploy_provider abi min_gas_price = do
    p ← coin_result bad_min_gas_price (parse_coin min_gas_price)
    _ ← abi_result abi
    ok (eth_deploy_provider p)

  unfoldable pub new_eth_call_provider : Bool → Bytes → Result EthError EthCallProvider
  new_eth_call_provider abi min_gas_price = do
    p ← coin_result bad_min_gas_price (parse_coin min_gas_price)
    _ ← abi_result abi
    ok (eth_call_provider p)

  unfoldable pub new_eth_internal_call_provider : Bool → Bytes → ℕ → Result EthError EthCallProvider
  new_eth_internal_call_provider abi min_gas_price iterations = do
    p ← coin_result bad_min_gas_price (parse_coin min_gas_price)
    _ ← abi_result abi
    ok (eth_internal_call_provider (default_iterations iterations) p)

abbrev pub new_msg : LegacyTx → EthMsg
new_msg raw = record { raw = raw; signature = none; from = none }

abbrev pub unsigned_eth : {Key : Type 0} → TxRequest Key → LegacyTx → BaseTx Key EthMsg
unsigned_eth req raw = record {
  from = req.from;
  msgs = new_msg raw ∷ [];
  tx_bytes = [];
  from_idx = req.from_idx;
  tx_idx = req.tx_idx;
}

-- The test at the top of `GenerateTx`, and `Pack` below it.
abbrev pub packed : EthCallProvider → Option Bytes → Result EthError Bytes
packed p none = if p.contract_address == 0 then err contract_address_not_set else err failed_to_pack
packed p (some b) = if p.contract_address == 0 then err contract_address_not_set else ok b

module _ {Key : Type 0} where
  -- A contract's deployment, in the three providers that make one.
  abbrev pub deployment : TxRequest Key → ℕ → Coin → Bytes → BaseTx Key EthMsg
  deployment req gas price bin = unsigned_eth req (record {
    nonce = req.from.sequence;
    to = none;
    value = 0;
    gas = gas;
    gas_price = price.amount;
    input = bin;
  })

  abbrev pub call : TxRequest Key → ℕ → EthCallProvider → Bytes → BaseTx Key EthMsg
  call req gas p call_data = unsigned_eth req (record {
    nonce = req.from.sequence;
    to = some p.contract_address;
    value = 0;
    gas = gas;
    gas_price = p.min_gas_price.amount;
    input = call_data;
  })

  -- `ethSendProvider.GenerateTx`; an index out of range panics, which is `none`.
  unfoldable pub eth_send_generate_tx :
      (Key → ℕ) → EthSendProvider → TxRequest Key → Option (BaseTx Key EthMsg)
  unfolding target_idx
  eth_send_generate_tx address p req =
      Option.map
        (λ to. unsigned_eth req (record {
          nonce = req.from.sequence;
          to = some (address to);
          value = p.send_amount.amount;
          gas = p.max_gas_limit;
          gas_price = p.min_gas_price.amount;
          input = [];
        }))
        (get_elem? req.keys (target_idx (length req.keys) req.from_idx 1))

  -- `ethDeployProvider.GenerateTx`
  unfoldable pub eth_deploy_generate_tx :
      Bytes → EthDeployProvider → TxRequest Key → BaseTx Key EthMsg
  eth_deploy_generate_tx bin p req = deployment req p.max_gas_limit p.min_gas_price bin

  -- `ethCallProvider.GenerateTx`; `pack` is `contractABI.Pack("increase")`.
  unfoldable pub eth_call_generate_tx :
      Option Bytes → EthCallProvider → TxRequest Key → Result EthError (BaseTx Key EthMsg)
  eth_call_generate_tx pack p req = do b ← packed p pack; ok (call req p.max_gas_limit p b)

  -- `ethInternalCallProvider.GenerateTx`, which packs the iterations as an int64.
  unfoldable pub eth_internal_call_generate_tx :
      (ℤ → Option Bytes) → EthCallProvider → TxRequest Key → Result EthError (BaseTx Key EthMsg)
  eth_internal_call_generate_tx pack p req = do
    b ← packed p (pack (to_int p.iterations))
    ok (call req p.max_gas_limit p b)

  -- `ethCallProvider.GenerateInitialTx`: the first request deploys the contract and sets its address.
  unfoldable pub eth_call_generate_initial_tx :
      (Key → ℕ)
      → (ℕ → ℕ → ℕ)
      → Bytes
      → EthCallProvider
      → TxRequest Key
      → Option (BaseTx Key EthMsg) × EthCallProvider
  eth_call_generate_initial_tx address create_address bin p req =
      if not (req.from_idx == 0) || not (req.tx_idx == 0) then (none, p) else (
        some (deployment req p.max_gas_limit_deployment p.min_gas_price bin),
        record p { contract_address = create_address (address req.from.key) req.from.sequence },
      )

  -- `ethInternalCallProvider.GenerateInitialTx`, which does the same with its own contract.
  unfoldable pub eth_internal_call_generate_initial_tx :
      (Key → ℕ)
      → (ℕ → ℕ → ℕ)
      → Bytes
      → EthCallProvider
      → TxRequest Key
      → Option (BaseTx Key EthMsg) × EthCallProvider
  unfolding eth_call_generate_initial_tx
  eth_internal_call_generate_initial_tx address create_address bin p req =
      eth_call_generate_initial_tx address create_address bin p req
