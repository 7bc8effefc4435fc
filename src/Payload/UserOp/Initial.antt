-- ===== src/Payload/UserOp/Initial.antt =====
-- payload/eth_userop_stress.go: what `GenerateInitialTx` prepares for an account.
use chain_stresser.Common.{
  ℕ, ◌+◌, ◌%◌, ◌^◌, ◌≤◌, ◌<◌, ◌≡◌, ◌≢◌, refl, ◌⊎◌, inl, inr, arith, Option, none, some, [], ◌∷◌,
  Result, ok, ◌==◌, ==_iff, leb, leb→le, leb-false, Bool-cases,
}
use chain_stresser.Common.Bytes.{Bytes}
use chain_stresser.Common.BigEndian.{value as big_endian}
use chain_stresser.Common.Sums.{update}
use chain_stresser.Payload.Base.{TxRequest, BaseTx}
use chain_stresser.Payload.Eth.{EthMsg}
use chain_stresser.Payload.UserOp.{
  UserOpProvider, min_account_balance, account_balance_topup, deposit_tx,
  user_op_generate_initial_tx,
}
use chain_stresser.Aa.Signer.{AaError}
use chain_stresser.Aa.Account.{
  LightAccount, Abi, Node, nonce, balance, deposit_to_entrypoint_call_data,
}

update_same : {A : Type 0} (f : ℕ → A) (k : ℕ) (v : A) → update f k v k ≡ v
update_same f k v = rw ((==_iff k k).1 refl) refl

update_other : {A : Type 0} (f : ℕ → A) (k : ℕ) (v : A) (i : ℕ) → i ≢ k → update f k v i ≡ f i
update_other f k v i other = elim (Bool-cases (i == k)) [
  | inl same ↦ absurd (other ((==_iff i k).0 same))
  | inr differ ↦ rw differ refl
]

fits : (n : ℕ) → n < 2 ^ 64 → n % 2 ^ 64 ≡ n
fits n h = omega arith

-- Nothing is sent to an account with enough on the entry point, a deposit that is enough otherwise.
abbrev pub IsFunded :
    {Key : Type 0}
    → UserOpProvider
    → TxRequest Key
    → ℕ
    → Bytes
    → Option (BaseTx Key EthMsg)
    → Type 0
IsFunded p req b d o =
    ((10 ^ 18 ≤ b) × (o ≡ none))
    ⊎ ((b < 10 ^ 18)
        × (deposit : ℕ) × (o
            ≡ some (record {
              from = req.from;
              msgs =
                  (record {
                    raw = record {
                      nonce = req.from.sequence;
                      to = some (big_endian p.entrypoint_address);
                      value = deposit;
                      gas = p.max_gas_limit_initial_tx;
                      gas_price = p.min_gas_price.amount;
                      input = d;
                    };
                    signature = none;
                    from = none;
                  })
                  ∷ [];
              tx_bytes = [];
              from_idx = req.from_idx;
              tx_idx = req.tx_idx;
            }))
        × (10 ^ 18 ≤ b + deposit))

module _ {Key : Type 0} (abi : Abi) (node : Node)
    (new_light_account : Bytes → Result AaError LightAccount) (eth_address : Key → Bytes) where
  -- When the light account is there and the node knows its nonce and its owner's balance, the
  -- provider keeps the account and the nonce under the sender's index and nothing else. For a balance
  -- below 10^18, and only for such a one, there is a transaction to the entry point whose value brings
  -- the balance there.
  pub initial_tx-IsFunded :
      (p : UserOpProvider) (req : TxRequest Key) (la : LightAccount) (n b : ℕ) (d : Bytes)
      → new_light_account (eth_address req.from.key) ≡ ok la
      → node.get_nonce la.account_address 0 ≡ some n
      → n < 2 ^ 64
      → node.balance_of la.eoa_owner ≡ some b
      → abi.pack_deposit_to la.eoa_owner ≡ some d
      → (o : Option (BaseTx Key EthMsg)) × (p' : UserOpProvider) × (user_op_generate_initial_tx abi
            node new_light_account eth_address p req
          ≡ (ok o, p'))
        × IsFunded p req b d o
        × (p'.light_accounts req.from_idx ≡ some la)
        × (p'.light_account_nonces req.from_idx ≡ n)
        × ((i : ℕ)
            → i ≢ req.from_idx
            → (p'.light_accounts i ≡ p.light_accounts i)
              × (p'.light_account_nonces i ≡ p.light_account_nonces i))
  unfolding user_op_generate_initial_tx nonce balance deposit_to_entrypoint_call_data
  initial_tx-IsFunded p req la n b d made nonced small balanced deposit =
      let p' : UserOpProvider = record p {
        light_accounts = update p.light_accounts req.from_idx (some la);
        light_account_nonces = update p.light_account_nonces req.from_idx n;
      } in
      elim (Bool-cases (leb min_account_balance b)) [
        | inl rich ↦ (
          none,
          p',
          rw (made, nonced, fits n small, balanced, rich) refl,
          inl (leb→le _ _ rich, refl),
          update_same p.light_accounts req.from_idx (some la),
          update_same p.light_account_nonces req.from_idx n,
          λ i other. (
            update_other p.light_accounts req.from_idx (some la) i other,
            update_other p.light_account_nonces req.from_idx n i other,
          ),
        )
        | inr poor ↦ (
          some (deposit_tx p req d),
          p',
          rw (made, nonced, fits n small, balanced, poor, deposit) refl,
          inr (leb-false _ _ poor, account_balance_topup, refl, omega arith),
          update_same p.light_accounts req.from_idx (some la),
          update_same p.light_account_nonces req.from_idx n,
          λ i other. (
            update_other p.light_accounts req.from_idx (some la) i other,
            update_other p.light_account_nonces req.from_idx n i other,
          ),
        )
      ]
