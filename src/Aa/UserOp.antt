-- ===== src/Aa/UserOp.antt =====
-- eth/aa/userop.go. A `*big.Int` is an integer, an address its 20 bytes. go-ethereum's helpers on
-- bytes and its ABI encoding are parameters.
use chain_stresser.Common.{
  ℕ, ◌-◌, ◌≡◌, not, Option, none, some, List, [], ◌∷◌, ◌++◌, if◌then◌else◌, ltb, ◌==◌, length, take,
  drop,
}
use chain_stresser.Common.Bytes.{Bytes, eq_bytes}
use chain_stresser.Common.BigEndian.{big_bytes, zeros}
use chain_stresser.Common.Int.{ℤ, pos, ltb_ℤ, add_ℤ, mul_ℤ, abs}

-- The helpers of go-ethereum's package common, as it documents them.
pub record Geth : Type 0 where
  pub left_pad_bytes : Bytes → ℕ → Bytes
  pub bytes_to_address : Bytes → Bytes
  pub bytes_to_hash : Bytes → Bytes
  pub left_pad_bytes-eq : (b : Bytes) (n : ℕ) → left_pad_bytes b n ≡ zeros (n - length b) ++ b
  -- cropped from the left, or padded there
  pub bytes_to_address-eq :
      (b : Bytes) → bytes_to_address b ≡ zeros (20 - length b) ++ drop (length b - 20) b
  pub bytes_to_hash-eq : (b : Bytes) → length b ≡ 32 → bytes_to_hash b ≡ b

abbrev pub zero_address : Bytes
zero_address = zeros 20

pub record UserOperation : Type 0 where
  pub sender : Bytes
  pub nonce : ℤ
  pub init_code : Bytes
  pub call_data : Bytes
  pub call_gas_limit : ℤ
  pub verification_gas_limit : ℤ
  pub pre_verification_gas : ℤ
  pub max_fee_per_gas : ℤ
  pub max_priority_fee_per_gas : ℤ
  pub paymaster : Bytes
  pub paymaster_verification_gas_limit : ℤ
  pub paymaster_post_op_gas_limit : ℤ
  pub paymaster_data : Bytes
  pub signature : Bytes

pub record PackedUserOperation : Type 0 where
  pub sender : Bytes
  pub nonce : ℤ
  pub init_code : Bytes
  pub call_data : Bytes
  pub account_gas_limits : Bytes
  pub pre_verification_gas : ℤ
  pub gas_fees : Bytes
  pub paymaster_and_data : Bytes
  pub signature : Bytes

-- `GetMaxGasAvailable`
unfoldable pub get_max_gas_available : UserOperation → ℤ
get_max_gas_available op =
    let mul : ℤ = (if not (eq_bytes op.paymaster zero_address) then pos 3 else pos 1) in
    add_ℤ (mul_ℤ op.verification_gas_limit mul) (add_ℤ op.pre_verification_gas op.call_gas_limit)

-- `GetMaxPrefund`
unfoldable pub get_max_prefund : UserOperation → ℤ
unfolding get_max_gas_available
get_max_prefund op = mul_ℤ (get_max_gas_available op) op.max_fee_per_gas

-- `if basefee == nil { bf = 0 }`
abbrev pub or_zero : Option ℤ → ℤ
or_zero none = pos 0
or_zero (some b) = b

-- `GetDynamicGasPrice`
unfoldable pub get_dynamic_gas_price : UserOperation → Option ℤ → ℤ
get_dynamic_gas_price op basefee =
    let gp = add_ℤ (or_zero basefee) op.max_priority_fee_per_gas in
    if ltb_ℤ op.max_fee_per_gas gp then op.max_fee_per_gas else gp

module _ (geth : Geth) where
  -- `GetFactory`
  unfoldable pub get_factory : UserOperation → Bytes
  get_factory op =
      if ltb (length op.init_code) 20
      then zero_address
      else geth.bytes_to_address (take 20 op.init_code)

  -- `GetFactoryData`
  unfoldable pub get_factory_data : UserOperation → Bytes
  get_factory_data op = if ltb (length op.init_code) 20 then [] else drop 20 op.init_code

  abbrev pub pad : ℤ → Bytes
  pad z = geth.left_pad_bytes (big_bytes (abs z)) 16

  -- `packAccountGasLimits` and `packGasFees`
  unfoldable pub pack_account_gas_limits : ℤ → ℤ → Bytes
  pack_account_gas_limits verification_gas_limit call_gas_limit =
      pad verification_gas_limit ++ pad call_gas_limit

  unfoldable pub pack_gas_fees : ℤ → ℤ → Bytes
  pack_gas_fees max_priority_fee_per_gas max_fee_per_gas =
      pad max_priority_fee_per_gas ++ pad max_fee_per_gas

  -- `packPaymasterData`
  unfoldable pub pack_paymaster_data : Bytes → ℤ → ℤ → Bytes → Bytes
  pack_paymaster_data paymaster verification_gas_limit post_op_gas_limit paymaster_data =
      paymaster ++ (pad verification_gas_limit ++ (pad post_op_gas_limit ++ paymaster_data))

  abbrev pub account_gas_limits : UserOperation → Bytes
  account_gas_limits op = pack_account_gas_limits op.verification_gas_limit op.call_gas_limit

  abbrev pub gas_fees : UserOperation → Bytes
  gas_fees op = pack_gas_fees op.max_priority_fee_per_gas op.max_fee_per_gas

  -- The fields that `Pack` fills in at its end.
  abbrev pub packed : UserOperation → PackedUserOperation
  packed op = record {
    sender = op.sender;
    nonce = op.nonce;
    init_code = op.init_code;
    call_data = op.call_data;
    account_gas_limits = geth.bytes_to_hash (account_gas_limits op);
    pre_verification_gas = op.pre_verification_gas;
    gas_fees = geth.bytes_to_hash (gas_fees op);
    paymaster_and_data =
        if not (eq_bytes op.paymaster zero_address)
        then pack_paymaster_data op.paymaster op.paymaster_verification_gas_limit
            op.paymaster_post_op_gas_limit op.paymaster_data
        else [];
    signature = op.signature;
  }

  -- `Pack`; `none` is one of its two panics.
  unfoldable pub pack : UserOperation → Option PackedUserOperation
  pack op =
      if not (length (account_gas_limits op) == 32)
      then none
      else if not (length (gas_fees op) == 32)
      then none
      else some (packed op)

-- The values that the ABI encodes.
pub data AbiValue : Type 0 where
  abi_address : Bytes → AbiValue
  abi_uint256 : ℤ → AbiValue
  abi_bytes32 : Bytes → AbiValue

-- A failed `Pack` returns no bytes.
abbrev pub or_empty : Option Bytes → Bytes
or_empty none = []
or_empty (some b) = b

module _ (args_pack : List AbiValue → Option Bytes) (keccak256 : Bytes → Bytes) where
  -- `EncodeForSignature`, which ignores the error of `Pack`
  unfoldable pub encode_for_signature : PackedUserOperation → Bytes
  encode_for_signature op = or_empty (
      args_pack (
        abi_address op.sender
        ∷ abi_uint256 op.nonce
        ∷ abi_bytes32 (keccak256 op.init_code)
        ∷ abi_bytes32 (keccak256 op.call_data)
        ∷ abi_bytes32 op.account_gas_limits
        ∷ abi_uint256 op.pre_verification_gas
        ∷ abi_bytes32 op.gas_fees
        ∷ abi_bytes32 (keccak256 op.paymaster_and_data)
        ∷ []))

  -- `GetUserOpHash`; `none` is the panic when `Pack` fails.
  unfoldable pub get_user_op_hash : Bytes → ℤ → PackedUserOperation → Option Bytes
  unfolding encode_for_signature
  get_user_op_hash entry_point chain_id op =
      elim (args_pack (
        abi_bytes32 (keccak256 (encode_for_signature op))
        ∷ abi_address entry_point
        ∷ abi_uint256 chain_id
        ∷ [])) [ none ↦ none | some b ↦ some (keccak256 b) ]
