-- ===== src/Tests/Aa.antt =====
-- User operations on small inputs.
use chain_stresser.Common.{
  ℕ, ◌+◌, ◌*◌, ◌≤◌, ◌≡◌, ◌≢◌, refl, arith, ◌-◌, ◌^◌, inl, true, false, Option, none, some, List, [],
  ◌∷◌, ◌++◌, map, Result, ok, err, length, take, drop,
}
use chain_stresser.Common.Bytes.{Bytes, eq_bytes}
use chain_stresser.Common.BigEndian.{value, zeros, big_bytes}
use chain_stresser.Common.Int.{pos}
use chain_stresser.Payload.Base.{TxRequest, BaseTx}
use chain_stresser.Payload.Eth.{EthMsg}
use chain_stresser.Payload.UserOp.{UserOpProvider, user_op_generate_initial_tx}
use chain_stresser.Payload.UserOp.Nonces.{generate_all, CarryAll, count_from, generate_all-nonces}
use chain_stresser.Payload.UserOp.Initial.{IsFunded, initial_tx-IsFunded}
use chain_stresser.Aa.UserOp.{
  Geth, AbiValue, UserOperation, PackedUserOperation, zero_address, get_max_gas_available,
  get_max_prefund, get_dynamic_gas_price, packed, pack,
}
use chain_stresser.Aa.Packing.{pack-values, pack_panics}
use chain_stresser.Aa.Fees.{cost-le-prefund}
use chain_stresser.Aa.Signer.{AaError, chain_id_mismatch}
use chain_stresser.Aa.Account.{LightAccount, GasEstimates, Abi, Node, new_light_account}
use chain_stresser.Aa.Created.{new_light_account-address}

abbrev geth : Geth
geth = record {
  left_pad_bytes = λ b n. zeros (n - length b) ++ b;
  bytes_to_address = λ b. zeros (20 - length b) ++ drop (length b - 20) b;
  bytes_to_hash = λ b. b;
  left_pad_bytes-eq = λ b n. refl;
  bytes_to_address-eq = λ b. refl;
  bytes_to_hash-eq = λ b h. refl;
}

-- An address whose last byte is the number.
abbrev an_address : ℕ → Bytes
an_address n = zeros 19 ++ n ∷ []

-- With a paymaster, and the given limit for the verification.
abbrev operation : ℕ → UserOperation
operation verification = record {
  sender = an_address 1;
  nonce = pos 4;
  init_code = [];
  call_data = 8 ∷ [];
  call_gas_limit = pos 22000;
  verification_gas_limit = pos verification;
  pre_verification_gas = pos 21000;
  max_fee_per_gas = pos 30;
  max_priority_fee_per_gas = pos 2;
  paymaster = an_address 6;
  paymaster_verification_gas_limit = pos 300000;
  paymaster_post_op_gas_limit = pos 0;
  paymaster_data = 5 ∷ [];
  signature = [];
}

pack-values_example :
    (p : PackedUserOperation) × (pack geth (operation 75000) ≡ some p)
    × (value (take 16 p.account_gas_limits) ≡ 75000)
    × (value (drop 16 p.account_gas_limits) ≡ 22000)
    × (value (take 16 p.gas_fees) ≡ 2)
    × (value (drop 16 p.gas_fees) ≡ 30)
    × (p.sender ≡ an_address 1)
    × (p.nonce ≡ pos 4)
    × (p.init_code ≡ [])
    × (p.call_data ≡ 8 ∷ [])
    × (p.pre_verification_gas ≡ pos 21000)
    × (p.signature ≡ [])
    × (eq_bytes (an_address 6) zero_address ≡ true → p.paymaster_and_data ≡ [])
    × (eq_bytes (an_address 6) zero_address ≡ false
        → p.paymaster_and_data
          ≡ an_address 6
            ++ (geth.left_pad_bytes (big_bytes 300000) 16
                ++ (geth.left_pad_bytes (big_bytes 0) 16 ++ 5 ∷ [])))
pack-values_example =
    pack-values geth (operation 75000) (omega arith, omega arith, omega arith, omega arith)

pack_panics_example : pack geth (operation (2 ^ 128)) ≡ none
pack_panics_example = pack_panics geth (operation (2 ^ 128)) (inl (inl (omega arith)))

paid : eq_bytes (an_address 6) zero_address ≡ false
unfolding eq_bytes
paid = refl

-- With a base fee of 10 the price is 12.
price_12 : get_dynamic_gas_price (operation 75000) (some (pos 10)) ≡ pos 12
unfolding get_dynamic_gas_price
price_12 = refl

cost-le-prefund_example :
    (available : ℕ) × (prefund : ℕ) × (get_max_gas_available (operation 75000) ≡ pos available)
    × (get_max_prefund (operation 75000) ≡ pos prefund)
    × (75000 + (21000 + 22000) ≤ available)
    × ((used : ℕ) → used ≤ available → used * 12 ≤ prefund)
cost-le-prefund_example =
    cost-le-prefund (operation 75000) 75000 22000 21000 30 (some (pos 10)) 12 refl refl refl refl
      price_12

-- An encoding that only counts its values, and a hash that keeps the first byte.
abbrev args_pack : List AbiValue → Option Bytes
args_pack vs = some (length vs ∷ [])

abbrev keccak256 : Bytes → Bytes
keccak256 b = take 1 b ++ zeros 31

abbrev hash_3 : Bytes
hash_3 = 3 ∷ zeros 31

abbrev personal_sign : Bytes → Option Bytes
personal_sign t = some (zeros 64 ++ 1 ∷ [])

abbrev abi : Abi
abi = record {
  pack_create_account = λ owner salt. some (7 ∷ owner);
  pack_execute = λ contract v data'. some (8 ∷ data');
  pack_deposit_to = λ owner. some (6 ∷ owner);
}

abbrev account : LightAccount
account = record {
  entrypoint_address = an_address 9;
  account_factory_address = an_address 4;
  account_address = an_address 1;
  eoa_owner = an_address 2;
  salt = 1;
  is_deployed = false;
}

abbrev gas : GasEstimates
gas = record {
  call_gas_limit = pos 22000;
  verification_gas_limit = pos 75000;
  pre_verification_gas = pos 21000;
  max_fee_per_gas = pos 0;
  max_priority_fee_per_gas = pos 0;
}

abbrev first_nonce : ℕ
first_nonce = 0

-- Account 0 has a light account, with 7 as its nonce.
abbrev accounts : ℕ → Option LightAccount
accounts i = some account

abbrev nonces : ℕ → ℕ
nonces i = 7

abbrev provider : UserOpProvider
provider = record {
  min_gas_price = record { denom = "inj"; amount = 1000000000 };
  max_gas_limit_per_user_op = 42000;
  max_gas_limit_initial_tx = 230000;
  entrypoint_address = an_address 9;
  light_accounts = accounts;
  light_account_nonces = nonces;
  counter_contract_address = an_address 5;
}

abbrev request : ℕ → TxRequest ℕ
request j = record {
  keys = 10 ∷ [];
  from = record { name = []; key = 10; number = 0; sequence = j };
  from_idx = 0;
  tx_idx = j;
}

-- Signing packs the operation with the signature of the key.
abbrev sign : ℕ → UserOperation → Result AaError PackedUserOperation
sign key op = ok (record (packed geth op) { signature = key ∷ [] })

abbrev handle_ops : List PackedUserOperation → Bytes → Option Bytes
handle_ops ops b = some (length ops ∷ b)

abbrev eth_address : ℕ → Bytes
eth_address = an_address

counter_set : eq_bytes (an_address 5) zero_address ≡ false
unfolding eq_bytes
counter_set = refl

generate_all-nonces_example :
    (ts : List (BaseTx ℕ EthMsg)) × (p' : UserOpProvider) × (ops : List PackedUserOperation)
    × (generate_all abi (1 ∷ []) sign handle_ops eth_address provider (request 0 ∷ request 1 ∷ [])
        ≡ ok (ts, p'))
    × CarryAll abi (1 ∷ []) sign handle_ops eth_address provider (request 0 ∷ request 1 ∷ []) ops ts
    × (map (λ op. op.nonce) ops ≡ map pos (count_from 7 100))
    × (p'.light_account_nonces 0 ≡ 107)
generate_all-nonces_example =
    generate_all-nonces abi (1 ∷ []) sign handle_ops eth_address (λ c v d. (8 ∷ d, refl))
      (λ o s. (7 ∷ o, refl)) (λ k op f. (_, refl, refl)) (λ ops b. (length ops ∷ b, refl)) provider
      0 7 account (request 0 ∷ request 1 ∷ []) (refl, (refl, tt)) counter_set refl refl
      (omega arith)

abbrev node : Node
node = record {
  chain_id = some (pos 1);
  call_contract = λ f t d. some (zeros 12 ++ an_address 1);
  code_at = λ a. some [];
  get_nonce = λ a k. some 3;
  balance_of = λ a. some 20;
}

abbrev new_account : Bytes → Result AaError LightAccount
new_account owner = ok account

initial_tx-IsFunded_example :
    (o : Option (BaseTx ℕ EthMsg)) × (p' : UserOpProvider) × (user_op_generate_initial_tx abi node
        new_account eth_address provider
        (request 0)
      ≡ (ok o, p'))
    × IsFunded provider (request 0) 20 (6 ∷ an_address 2) o
    × (p'.light_accounts 0 ≡ some account)
    × (p'.light_account_nonces 0 ≡ 3)
    × ((i : ℕ) → i ≢ 0 → (p'.light_accounts i ≡ some account) × (p'.light_account_nonces i ≡ 7))
initial_tx-IsFunded_example =
    initial_tx-IsFunded abi node new_account eth_address provider (request 0) account 3 20
      (6 ∷ an_address 2) refl refl (omega arith) refl refl

abbrev chain : ℕ
chain = 1

account_set : eq_bytes (an_address 1) zero_address ≡ false
unfolding eq_bytes
account_set = refl

new_light_account-address_example :
    (chain ≢ 1
      → new_light_account node abi geth true (pos 1) (an_address 9) (an_address 4) (an_address 2) 1
        ≡ err chain_id_mismatch)
    × (chain ≡ 1
        → new_light_account node abi geth true
            (pos 1)
            (an_address 9)
            (an_address 4)
            (an_address 2)
            1
          ≡ ok account)
new_light_account-address_example =
    new_light_account-address node abi geth (an_address 9) (an_address 4) (an_address 2) 1 1 chain
      (7 ∷ an_address 2) (an_address 1) [] refl refl refl refl account_set refl
