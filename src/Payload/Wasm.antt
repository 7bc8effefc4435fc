-- ===== src/Payload/Wasm.antt =====
-- payload/wasm_store_stress.go, wasm_init_stress.go and wasm_exec_stress.go. The node's queries, the
-- text of the contract's messages and the time are parameters; an address is its text.
pub mod Checksum
pub mod Codes
use mathlib.Core.Option
use chain_stresser.Common.{
  ℕ, zero, suc, ◌+◌, ◌||◌, not, Bool, true, false, Option, none, some, List, [], ◌∷◌, Result, ok,
  err, ◌>>=◌, if◌then◌else◌, ◌==◌, length, get_elem?,
}
use chain_stresser.Common.Bytes.{Bytes, codes}
use chain_stresser.Payload.Base.{Account, TxRequest, BaseTx}
use chain_stresser.Payload.Bank.{Coin, ChainTx, target_idx, sign_chain_tx}

pub data WasmMsg : Type 0 where
  -- sender and code
  msg_store_code : Bytes → Bytes → WasmMsg
  -- sender, admin, code, label, message and funds
  msg_instantiate : Bytes → Bytes → ℕ → Bytes → Bytes → List Coin → WasmMsg
  -- sender, code, label, message, funds, salt and FixMsg
  msg_instantiate2 : Bytes → ℕ → Bytes → Bytes → List Coin → Bytes → Bool → WasmMsg
  -- sender, contract, message and funds
  msg_execute : Bytes → Bytes → Bytes → List Coin → WasmMsg

pub data WasmError : Type 0 where
  bad_min_gas_price : WasmError
  bad_checksum : WasmError
  failed_to_query_codes : WasmError
  failed_to_query_build_address : WasmError
  -- the node has not come to a last page within the fuel
  out_of_fuel : WasmError

abbrev pub wasm_result {ℓ} : {A : Type ℓ} → WasmError → Option A → Result WasmError A
wasm_result e none = err e
wasm_result e (some a) = ok a

abbrev pub default_max_gas_limit : ℕ
default_max_gas_limit = 10000000

abbrev pub one_inj : List Coin
one_inj = (record { denom = "inj"; amount = 1 }) ∷ []

-- The three providers; each uses the fields that it needs.
pub record WasmProvider : Type 0 where
  pub min_gas_price : Coin
  pub max_gas_limit : ℕ
  pub memo_attach : Bytes
  pub init2_salt : Bytes
  pub contract_code_hash : Bytes
  pub contract_code_id : ℕ
  pub contract_address : Bytes

abbrev wasm_provider : Coin → Bytes → Bytes → WasmProvider
wasm_provider price salt code_hash = record {
  min_gas_price = price;
  max_gas_limit = default_max_gas_limit;
  memo_attach = [];
  init2_salt = salt;
  contract_code_hash = code_hash;
  contract_code_id = 0;
  contract_address = [];
}

module _ (parse_coin : Bytes → Option Coin) where
  unfoldable pub new_wasm_store_code_provider : Bytes → Result WasmError WasmProvider
  new_wasm_store_code_provider min_gas_price = do
    p ← wasm_result bad_min_gas_price (parse_coin min_gas_price)
    ok (wasm_provider p [] [])

  unfoldable pub new_wasm_init_contract_provider : Bytes → Result WasmError WasmProvider
  new_wasm_init_contract_provider min_gas_price = do
    p ← wasm_result bad_min_gas_price (parse_coin min_gas_price)
    ok (wasm_provider p [] [])

  -- `NewWasmExecContractProvider`, with the time as the salt and the text of the code's checksum.
  unfoldable pub new_wasm_exec_contract_provider :
      Option Bytes → Bytes → Bytes → Result WasmError WasmProvider
  new_wasm_exec_contract_provider checksum now min_gas_price = do
    p ← wasm_result bad_min_gas_price (parse_coin min_gas_price)
    code_hash ← wasm_result bad_checksum checksum
    ok (wasm_provider p now code_hash)

abbrev pub wasm_tx : {Key : Type 0} → TxRequest Key → List WasmMsg → BaseTx Key WasmMsg
wasm_tx req msgs = record {
  from = req.from;
  msgs = msgs;
  tx_bytes = [];
  from_idx = req.from_idx;
  tx_idx = req.tx_idx;
}

-- The rounds of `queryLastWasmContractID`. `page` is the reply for a key: how many codes it lists,
-- and the next key, empty on the last page.
unfoldable pub query_codes : (Bytes → Option (ℕ × Bytes)) → ℕ → ℕ → Bytes → Result WasmError ℕ
query_codes page zero total key = err out_of_fuel
query_codes page (suc fuel) total key = do
  (n, next) ← wasm_result failed_to_query_codes (page key)
  if not (length next == 0) then query_codes page fuel (total + n) next else ok (total + n)

unfoldable pub query_last_wasm_contract_id : (Bytes → Option (ℕ × Bytes)) → ℕ → Result WasmError ℕ
unfolding query_codes
query_last_wasm_contract_id page fuel = query_codes page fuel 0 []

module _ {Key : Type 0} (acc_address : Key → Bytes) (byte_code : Bytes)
    -- the texts of the instantiation and of a transfer, and the label, which is the time
    (init_msg : Bytes → Bytes) (transfer_msg : Bytes → Bytes) (label : Bytes) where
  -- `wasmStoreCodeProvider.GenerateTx`
  unfoldable pub store_generate_tx : TxRequest Key → BaseTx Key WasmMsg
  store_generate_tx req = wasm_tx req (msg_store_code (acc_address req.from.key) byte_code ∷ [])

  -- `wasmInitContractProvider.GenerateTx`
  unfoldable pub init_generate_tx : WasmProvider → TxRequest Key → BaseTx Key WasmMsg
  init_generate_tx p req =
      let sender = acc_address req.from.key in
      wasm_tx req
        (msg_instantiate sender sender p.contract_code_id label (init_msg sender) one_inj ∷ [])

  -- `wasmExecContractProvider.GenerateTx`; an index out of range panics, which is `none`.
  unfoldable pub exec_generate_tx : WasmProvider → TxRequest Key → Option (BaseTx Key WasmMsg)
  unfolding target_idx
  exec_generate_tx p req =
      Option.map
        (λ to. wasm_tx req (
          msg_execute (acc_address req.from.key) p.contract_address (transfer_msg (acc_address to))
            one_inj
          ∷ []))
        (get_elem? req.keys (target_idx (length req.keys) req.from_idx 1))

  module _ (page : Bytes → Option (ℕ × Bytes)) (fuel : ℕ)
      -- `queryBuildAddress`, of the sender, the code's hash, the salt and the message
      (build_address : Bytes → Bytes → Bytes → Bytes → Option Bytes) where
    abbrev pub init_queried :
        WasmProvider
        → TxRequest Key
        → Result WasmError ℕ
        → Result WasmError (Option (BaseTx Key WasmMsg)) × WasmProvider
    init_queried p req (err e) = (err e, p)
    init_queried p req (ok last_id) = (
      ok (some (wasm_tx req (msg_store_code (acc_address req.from.key) byte_code ∷ []))),
      record p { contract_code_id = last_id + 1 },
    )

    -- `wasmInitContractProvider.GenerateInitialTx`
    unfoldable pub init_generate_initial_tx :
        WasmProvider → TxRequest Key → Result WasmError (Option (BaseTx Key WasmMsg)) × WasmProvider
    unfolding query_last_wasm_contract_id
    init_generate_initial_tx p req =
        let queried = init_queried p req (query_last_wasm_contract_id page fuel) in
        if not (req.from_idx == 0) || not (req.tx_idx == 0) then (ok none, p) else queried

    -- The store and the instantiation of one transaction.
    abbrev pub provision_tx : WasmProvider → TxRequest Key → ℕ → BaseTx Key WasmMsg
    provision_tx p req code_id =
        let sender = acc_address req.from.key in
        wasm_tx req (
          msg_store_code sender byte_code
          ∷ msg_instantiate2 sender code_id label (init_msg sender) one_inj p.init2_salt true
          ∷ [])

    abbrev pub exec_address :
        WasmProvider
        → TxRequest Key
        → Option Bytes
        → Result WasmError (Option (BaseTx Key WasmMsg)) × WasmProvider
    exec_address p req none = (err failed_to_query_build_address, p)
    exec_address p req (some address) =
        (ok (some (provision_tx p req p.contract_code_id)), record p { contract_address = address })

    -- The code's id is kept even if the second query fails.
    abbrev pub exec_queried :
        WasmProvider
        → TxRequest Key
        → Result WasmError ℕ
        → Result WasmError (Option (BaseTx Key WasmMsg)) × WasmProvider
    exec_queried p req (err e) = (err e, p)
    exec_queried p req (ok last_id) =
        let sender = acc_address req.from.key in
        exec_address (record p { contract_code_id = last_id + 1 }) req
          (build_address sender p.contract_code_hash p.init2_salt (init_msg sender))

    -- `wasmExecContractProvider.GenerateInitialTx`
    unfoldable pub exec_generate_initial_tx :
        WasmProvider → TxRequest Key → Result WasmError (Option (BaseTx Key WasmMsg)) × WasmProvider
    unfolding query_last_wasm_contract_id
    exec_generate_initial_tx p req =
        let queried = exec_queried p req (query_last_wasm_contract_id page fuel) in
        if not (req.from_idx == 0) || not (req.tx_idx == 0) then (ok none, p) else queried

-- `BuildAndSignTx` of each.
module _ {Key : Type 0} (sign : Account Key → ChainTx WasmMsg → Option Bytes) where
  unfoldable pub store_build_and_sign_tx :
      WasmProvider → BaseTx Key WasmMsg → Option (BaseTx Key WasmMsg)
  unfolding sign_chain_tx
  store_build_and_sign_tx p t = sign_chain_tx sign p.min_gas_price p.max_gas_limit p.memo_attach t

  unfoldable pub init_build_and_sign_tx :
      WasmProvider → BaseTx Key WasmMsg → Option (BaseTx Key WasmMsg)
  unfolding sign_chain_tx
  init_build_and_sign_tx p t = sign_chain_tx sign p.min_gas_price p.max_gas_limit p.memo_attach t

  unfoldable pub exec_build_and_sign_tx :
      WasmProvider → BaseTx Key WasmMsg → Option (BaseTx Key WasmMsg)
  unfolding sign_chain_tx
  exec_build_and_sign_tx p t = sign_chain_tx sign p.min_gas_price p.max_gas_limit p.memo_attach t
