-- ===== src/Cmd/Commands.antt =====
-- cmd/chain-stresser/main.go: the commands that run a stress, each from its flags to the way it ends.
-- The constructors of providers, the clients and the stress itself are what a command is given.
mod Replay
use chain_stresser.Common.{
  ℕ, ◌≡◌, refl, Bool, true, false, Option, none, some, List, [], ◌∷◌, ◌++◌, Result, ok, err,
  if◌then◌else◌, String, arith, Bool-cases, inl, inr,
}
use text.Mathlib.Text.{◌==◌ as str_eq}
use Prim.Native.String.{◌++◌ as str_append}
use chain_stresser.Common.Float.{Floats}
use chain_stresser.Common.Int.{ℤ}
use chain_stresser.Cmd.{
  StressConfig, YamlConfig, Changed, apply_stresser_config_from_yaml, AccountFile, AccountsError,
  read_accounts,
}

-- The constructor of a provider that a command calls, with the arguments it gives.
pub data Call (Client Address Mixed : Type 0) : Type 0 where
  new_bank_send : String → String → Call Client Address Mixed
  new_bank_multi_send : String → String → ℤ → Call Client Address Mixed
  new_eth_send : ℤ → String → String → Call Client Address Mixed
  new_eth_call : ℤ → String → Call Client Address Mixed
  new_eth_deploy : ℤ → String → Call Client Address Mixed
  new_eth_internal_call : ℤ → String → ℕ → Call Client Address Mixed
  new_eth_user_op :
      String → ℤ → String → Address → Address → Address → Address → Call Client Address Mixed
  new_exchange_batch_orders : String → List String → List String → Call Client Address Mixed
  new_wasm_store_code : String → Call Client Address Mixed
  new_wasm_init_contract : Client → String → Call Client Address Mixed
  new_wasm_exec_contract : Client → String → Call Client Address Mixed
  new_mixed_payload : Mixed → String → ℤ → Client → Call Client Address Mixed

-- How a command ends: a panic of `orPanic` or of the connection, an error for cobra, `os.Exit`, or nil.
pub data Outcome (E : Type 0) : Type 0 where
  bad_accounts : AccountsError → Outcome E
  not_connected : Outcome E
  required : String → Outcome E
  failed : String → E → Outcome E
  exited : E → Outcome E
  finished : Outcome E

abbrev default_bond_denom : String
default_bond_denom = "inj"

module _ (fl : Floats) {W E Key Client Address Mixed Provider : Type 0}
    (create : Call Client Address Mixed → W → Result E Provider × W)
    (stress : StressConfig fl.Float → List Key → Provider → W → Result E (Unit {0}) × W)
    (connect : String → String → String → Option Client) where
  -- The end that the commands share: `Stress`, with `os.Exit` on its error.
  unfoldable pub run_end : Result E (Unit {0}) × W → Outcome E × W
  run_end (ok u, w) = (finished, w)
  run_end (err e, w) = (exited e, w)

  unfoldable pub run_provider :
      String → StressConfig fl.Float → List Key → Result E Provider × W → Outcome E × W
  run_provider message cfg keys (err e, w) = (failed message e, w)
  run_provider message cfg keys (ok provider, w) = run_end (stress cfg keys provider w)

  unfoldable pub run_accounts :
      String
      → Call Client Address Mixed
      → StressConfig fl.Float
      → Result AccountsError (List Key)
      → W
      → Outcome E × W
  run_accounts message call cfg (err e) w = (bad_accounts e, w)
  run_accounts message call cfg (ok keys) w = run_provider message cfg keys (create call w)

  unfoldable tx_bank_send : StressConfig fl.Float → ℤ → AccountFile Key → W → Outcome E × W
  tx_bank_send cfg n file w =
      run_accounts "failed to initate bank send stress provider"
        (new_bank_send cfg.min_gas_price (str_append "1" default_bond_denom)) cfg
        (read_accounts n file) w

  unfoldable tx_bank_multi_send :
      ℤ → StressConfig fl.Float → ℤ → AccountFile Key → W → Outcome E × W
  tx_bank_multi_send targets cfg n file w =
      run_accounts "failed to initate bank multi send stress provider"
        (new_bank_multi_send cfg.min_gas_price (str_append "1" default_bond_denom) targets) cfg
        (read_accounts n file) w

  unfoldable tx_eth_send : StressConfig fl.Float → ℤ → AccountFile Key → W → Outcome E × W
  tx_eth_send cfg n file w =
      run_accounts "failed to initate eth value send stress provider"
        (new_eth_send cfg.eth_chain_id cfg.min_gas_price (str_append "1" default_bond_denom)) cfg
        (read_accounts n file) w

  unfoldable tx_eth_call : StressConfig fl.Float → ℤ → AccountFile Key → W → Outcome E × W
  tx_eth_call cfg n file w =
      run_accounts "failed to initate eth contract call stress provider"
        (new_eth_call cfg.eth_chain_id cfg.min_gas_price) cfg (read_accounts n file) w

  unfoldable tx_eth_deploy : StressConfig fl.Float → ℤ → AccountFile Key → W → Outcome E × W
  tx_eth_deploy cfg n file w =
      run_accounts "failed to initate eth contract deploy stress provider"
        (new_eth_deploy cfg.eth_chain_id cfg.min_gas_price) cfg (read_accounts n file) w

  unfoldable tx_eth_internal_call :
      ℕ → StressConfig fl.Float → ℤ → AccountFile Key → W → Outcome E × W
  tx_eth_internal_call iterations cfg n file w =
      run_accounts "failed to initate eth contract internal call stress provider"
        (new_eth_internal_call cfg.eth_chain_id cfg.min_gas_price iterations) cfg
        (read_accounts n file) w

  unfoldable tx_eth_user_op :
      (String → Address)
      → String
      → String
      → String
      → String
      → String
      → StressConfig fl.Float
      → ℤ
      → AccountFile Key
      → W
      → Outcome E × W
  tx_eth_user_op hex_to_address url entrypoint beneficiary factory counter cfg n file w =
      run_accounts "failed to initiate eth UserOp stress provider"
        (new_eth_user_op url cfg.eth_chain_id cfg.min_gas_price (hex_to_address entrypoint)
          (hex_to_address beneficiary) (hex_to_address factory) (hex_to_address counter))
        cfg (read_accounts n file) w

  unfoldable tx_exchange_batch_orders :
      List String → List String → StressConfig fl.Float → ℤ → AccountFile Key → W → Outcome E × W
  tx_exchange_batch_orders spot_market_ids derivative_market_ids cfg n file w =
      run_accounts "failed to initate exchange batch orders stress provider"
        (new_exchange_batch_orders cfg.min_gas_price spot_market_ids derivative_market_ids) cfg
        (read_accounts n file) w

  unfoldable tx_wasm_store_code : StressConfig fl.Float → ℤ → AccountFile Key → W → Outcome E × W
  tx_wasm_store_code cfg n file w =
      run_accounts "failed to initiate wasm code store stress provider"
        (new_wasm_store_code cfg.min_gas_price) cfg (read_accounts n file) w

  -- A client for the node, once there are accounts.
  unfoldable pub run_client :
      String
      → (Client → Call Client Address Mixed)
      → StressConfig fl.Float
      → List Key
      → Option Client
      → W
      → Outcome E × W
  run_client message call cfg keys none w = (not_connected, w)
  run_client message call cfg keys (some client) w =
      run_provider message cfg keys (create (call client) w)

  unfoldable pub run_connected :
      String
      → (Client → Call Client Address Mixed)
      → StressConfig fl.Float
      → Result AccountsError (List Key)
      → W
      → Outcome E × W
  run_connected message call cfg (err e) w = (bad_accounts e, w)
  run_connected message call cfg (ok keys) w =
      run_client message call cfg keys (connect cfg.chain_id cfg.node_address cfg.grpc_address) w

  unfoldable tx_wasm_init_contract : StressConfig fl.Float → ℤ → AccountFile Key → W → Outcome E × W
  tx_wasm_init_contract cfg n file w =
      run_connected "failed to initiate wasm init contract stress provider"
        (λ client. new_wasm_init_contract client cfg.min_gas_price) cfg (read_accounts n file) w

  unfoldable tx_wasm_exec_contract : StressConfig fl.Float → ℤ → AccountFile Key → W → Outcome E × W
  tx_wasm_exec_contract cfg n file w =
      run_connected "failed to initiate wasm exec stress provider"
        (λ client. new_wasm_exec_contract client cfg.min_gas_price) cfg (read_accounts n file) w

  -- `LoadMixedPayloadConfig` gives the configuration, with the settings of its stresser section.
  unfoldable pub run_loaded :
      Changed
      → StressConfig fl.Float
      → ℤ
      → AccountFile Key
      → Result E (Mixed × Option (YamlConfig fl.Float))
      → W
      → Outcome E × W
  run_loaded changed cfg n file (err e) w = (failed "failed to load mixed payload config" e, w)
  run_loaded changed cfg n file (ok (mixed, yaml)) w =
      let given = apply_stresser_config_from_yaml fl yaml changed cfg in
      run_connected "failed to create mixed payload provider"
        (λ client. new_mixed_payload mixed given.min_gas_price given.eth_chain_id client) given
        (read_accounts n file) w

  unfoldable pub tx_mixed_payload :
      (String → Result E (Mixed × Option (YamlConfig fl.Float)))
      → String
      → Changed
      → StressConfig fl.Float
      → ℤ
      → AccountFile Key
      → W
      → Outcome E × W
  tx_mixed_payload load path changed cfg n file w =
      if str_eq path ""
      then (required "--config is required", w)
      else run_loaded changed cfg n file (load path) w
