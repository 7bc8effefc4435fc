-- ===== src/Payload/Wasm/Codes.antt =====
-- payload/wasm_init_stress.go and wasm_exec_stress.go: the ids that the pages of codes lead to.
use chain_stresser.Common.{
  ℕ, zero, suc, ◌+◌, ◌≤◌, ◌≡◌, refl, ap, ◌∙◌, arith, Option, some, List, [], ◌∷◌, ok, length, sum,
  false, not, ◌||◌, ◌==◌,
}
use chain_stresser.Common.Bytes.{Bytes}
use chain_stresser.Payload.Base.{TxRequest}
use chain_stresser.Payload.Wasm.{
  msg_store_code, msg_instantiate, WasmProvider, one_inj, wasm_tx, query_codes,
  query_last_wasm_contract_id, init_generate_tx, init_generate_initial_tx,
}

more_key : (n : ℕ) → (suc n == 0) ≡ false
more_key n = ground arith

module _ (page : Bytes → Option (ℕ × Bytes)) where
  -- From a key, the node has these pages, one after the other.
  pub data Pages : Bytes → List ℕ → Type 0 where
    last_page : {key : Bytes} (n : ℕ) → page key ≡ some (n, []) → Pages key (n ∷ [])
    next_page :
        {key : Bytes} (n b : ℕ) (bs : Bytes) {ns : List ℕ}
        → page key ≡ some (n, b ∷ bs)
        → Pages (b ∷ bs) ns
        → Pages key (n ∷ ns)

  query_codes-Pages :
      {key : Bytes} {ns : List ℕ} (fuel total : ℕ)
      → Pages key ns
      → length ns ≤ fuel
      → query_codes page fuel total key ≡ ok (total + sum ns)
  unfolding query_codes
  query_codes-Pages zero total (last_page n e) h = absurd (omega arith)
  query_codes-Pages zero total (next_page n b bs e r) h = absurd (omega arith)
  query_codes-Pages (suc fuel) total (last_page n e) h = rw e (ap ok (omega arith))
  query_codes-Pages (suc fuel) total (next_page n b bs e r) h =
      rw (e, more_key (length bs))
        (query_codes-Pages fuel (total + n) r (omega arith) ∙ ap ok (omega arith))

  -- When the node has these pages, and fuel for each, the last id is the number of codes on them.
  last_id :
      {ns : List ℕ} (fuel : ℕ)
      → Pages [] ns
      → length ns ≤ fuel
      → query_last_wasm_contract_id page fuel ≡ ok (sum ns)
  unfolding query_last_wasm_contract_id
  last_id fuel r h = query_codes-Pages fuel 0 r h ∙ ap ok (omega arith)

  module _ {Key : Type 0} (acc_address : Key → Bytes) (byte_code : Bytes)
      (init_msg transfer_msg : Bytes → Bytes) (label : Bytes) {ns : List ℕ} (fuel : ℕ)
      (build_address : Bytes → Bytes → Bytes → Bytes → Option Bytes) (pages : Pages [] ns)
      (enough : length ns ≤ fuel) where
    first :
        (req : TxRequest Key)
        → req.from_idx ≡ 0
        → req.tx_idx ≡ 0
        → (not (req.from_idx == 0) || not (req.tx_idx == 0)) ≡ false
    first req e f = ground arith

    -- When the node lists its codes on some pages, the first account's initial transaction stores the
    -- contract's code, and every generated transaction instantiates the code whose id is one above
    -- the number of the codes listed on all pages, with its sender as the admin.
    pub init_contract-code_id :
        (p : WasmProvider) (req : TxRequest Key)
        → req.from_idx ≡ 0
        → req.tx_idx ≡ 0
        → (p' : WasmProvider) × (init_generate_initial_tx acc_address byte_code init_msg
              transfer_msg label page fuel build_address p req
            ≡ (
              ok (some (wasm_tx req (msg_store_code (acc_address req.from.key) byte_code ∷ []))),
              p',
            ))
          × ((req' : TxRequest Key)
              → init_generate_tx acc_address byte_code init_msg transfer_msg label p' req'
                ≡ wasm_tx req' (
                    msg_instantiate
                      (acc_address req'.from.key)
                      (acc_address req'.from.key)
                      (sum ns + 1)
                      label
                      (init_msg (acc_address req'.from.key))
                      one_inj
                    ∷ []))
    unfolding init_generate_initial_tx init_generate_tx
    init_contract-code_id p req e f = (
      record p { contract_code_id = sum ns + 1 },
      rw (first req e f, last_id fuel pages enough) refl,
      λ req'. refl,
    )
