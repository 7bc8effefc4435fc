-- ===== src/Payload/Bank.antt =====
-- payload/bank_send_stress.go and payload/bank_multi_send_stress.go. The Cosmos SDK's messages are
-- data here; its signing and encoding are a parameter. An index out of range panics, which is `none`.
use chain_stresser.Common.{
  ℕ, zero, suc, ◌+◌, ◌*◌, Option, none, some, List, [], ◌∷◌, Result, ok, err, if◌then◌else◌, leb,
  length, get_elem?, String,
}
use chain_stresser.Common.Options.{◌>>=◌}
use chain_stresser.Common.Bytes.{Bytes}
use chain_stresser.Common.Int.{ℤ, pos}
use chain_stresser.Payload.Base.{Account, TxRequest, BaseTx, with_bytes}

pub record Coin : Type 0 where
  pub denom : String
  pub amount : ℕ

-- `MsgSend`, and `MsgMultiSend` with one input and its outputs; an address is the key's.
pub data Msg (Addr : Type 0) : Type 0 where
  msg_send : Addr → Addr → List Coin → Msg Addr
  msg_multi_send : Addr × List Coin → List (Addr × List Coin) → Msg Addr

-- `bankSendProvider` and `bankMultiSendProvider`; `num_targets` is used by the latter.
pub record BankProvider : Type 0 where
  pub send_amount : Coin
  pub min_gas_price : Coin
  pub max_gas_limit : ℕ
  pub memo_attach : Bytes
  pub num_targets : ℕ

pub data BankError : Type 0 where
  num_targets_too_small : BankError
  bad_amount : BankError
  bad_min_gas_price : BankError

abbrev pub parsed : BankError → Option Coin → Result BankError Coin
parsed e none = err e
parsed e (some c) = ok c

module _ (parse_coin : Bytes → Option Coin) where
  -- The common part of the two constructors.
  abbrev with_coins : Bytes → Bytes → (Coin → Coin → BankProvider) → Result BankError BankProvider
  with_coins amount price f = elim (parse_coin amount) [
    | none ↦ err bad_amount
    | some a ↦ elim (parse_coin price) [ none ↦ err bad_min_gas_price | some p ↦ ok (f a p) ]
  ]

  unfoldable pub new_bank_send_provider : Bytes → Bytes → Result BankError BankProvider
  new_bank_send_provider price amount = with_coins amount price λ a p. record {
    send_amount = a;
    min_gas_price = p;
    max_gas_limit = 150000;
    memo_attach = [];
    num_targets = 1;
  }

  -- `memo` is 128 random bytes in hexadecimal.
  unfoldable pub new_bank_multi_send_provider :
      Bytes → Bytes → Bytes → ℤ → Result BankError BankProvider
  new_bank_multi_send_provider memo price amount (pos zero) = err num_targets_too_small
  new_bank_multi_send_provider memo price amount (pos (suc n)) = with_coins amount price λ a p.
      record {
        send_amount = a;
        min_gas_price = p;
        max_gas_limit = 18000000;
        memo_attach = memo;
        num_targets = suc n;
      }
  new_bank_multi_send_provider memo price amount (ℤ.negsuc n) = err num_targets_too_small

-- `if toIdx >= len(req.Keys) { toIdx = 0 }`
unfoldable pub target_idx : ℕ → ℕ → ℕ → ℕ
target_idx num_keys from_idx offset =
    if leb num_keys (from_idx + offset) then 0 else from_idx + offset

module _ {Key Addr : Type 0} (address : Key → Addr) where
  abbrev pub unsigned : TxRequest Key → Msg Addr → BaseTx Key (Msg Addr)
  unsigned req m = record {
    from = req.from;
    msgs = m ∷ [];
    tx_bytes = [];
    from_idx = req.from_idx;
    tx_idx = req.tx_idx;
  }

  -- `bankSendProvider.GenerateTx`
  unfoldable pub send_generate_tx : BankProvider → TxRequest Key → Option (BaseTx Key (Msg Addr))
  unfolding target_idx
  send_generate_tx p req = do
    to ← get_elem? req.keys (target_idx (length req.keys) req.from_idx 1)
    some (unsigned req (msg_send (address req.from.key) (address to) (p.send_amount ∷ [])))

  -- `for offset := 1; offset <= p.numTargets; offset++`, from any offset, with the rounds left.
  unfoldable pub outputs_from : Coin → TxRequest Key → ℕ → ℕ → Option (List (Addr × List Coin))
  unfolding target_idx
  outputs_from c req offset zero = some []
  outputs_from c req offset (suc n) = do
    to ← get_elem? req.keys (target_idx (length req.keys) req.from_idx offset)
    rest ← outputs_from c req (suc offset) n
    some ((address to, c ∷ []) ∷ rest)

  -- `bankMultiSendProvider.GenerateTx`
  unfoldable pub multi_send_generate_tx :
      BankProvider → TxRequest Key → Option (BaseTx Key (Msg Addr))
  multi_send_generate_tx p req = do
    outputs ← outputs_from p.send_amount req 1 p.num_targets
    some (
        unsigned req (
          msg_multi_send
            (
              address req.from.key,
              record { denom = p.send_amount.denom; amount = p.send_amount.amount * p.num_targets }
                  ∷ [],
            )
            outputs))

-- `chain.Tx`
pub record ChainTx (M : Type 0) : Type 0 where
  pub msgs : List M
  pub gas_limit : ℕ
  pub fee : List Coin
  pub memo : Bytes

-- `sdk.NewCoins` drops a coin of amount 0.
abbrev pub new_coins : Coin → List Coin
new_coins c = elim c.amount [ zero ↦ [] | suc n ↦ c ∷ [] ]

-- `BuildAndSignTx` of the providers whose transactions are the Cosmos SDK's, which differ in price,
-- gas and memo only; `client.BuildAndSignTx` and `client.Encode` are one parameter.
unfoldable pub sign_chain_tx :
    {Key M : Type 0}
    → (Account Key → ChainTx M → Option Bytes)
    → Coin
    → ℕ
    → Bytes
    → BaseTx Key M
    → Option (BaseTx Key M)
unfolding with_bytes
sign_chain_tx sign min_gas_price max_gas_limit memo t = do
  b ← sign t.from (record {
    msgs = t.msgs;
    gas_limit = max_gas_limit;
    fee =
        new_coins
          (record { denom = min_gas_price.denom; amount = min_gas_price.amount * max_gas_limit });
    memo = memo;
  })
  some (with_bytes b t)

-- `BuildAndSignTx` of the two bank providers.
unfoldable pub build_and_sign_tx :
    {Key M : Type 0}
    → (Account Key → ChainTx M → Option Bytes)
    → BankProvider
    → BaseTx Key M
    → Option (BaseTx Key M)
unfolding sign_chain_tx
build_and_sign_tx sign p t = sign_chain_tx sign p.min_gas_price p.max_gas_limit p.memo_attach t
