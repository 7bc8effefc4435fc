-- ===== src/Payload/Exchange.antt =====
-- payload/exchange_batch_orders_stress.go. The decimals of cosmossdk.io/math are a parameter, and so
-- are the four random draws. `Cid`, which holds the time, is left out; every order is a BUY.
pub mod Orders
use chain_stresser.Common.{
  ℕ, zero, suc, ◌+◌, ◌*◌, ◌/◌, ◌%◌, ◌≡◌, Bool, true, false, Option, none, some, List, [], ◌∷◌, ◌++◌,
  Result, ok, err, if◌then◌else◌, ltb,
}
use chain_stresser.Common.Bytes.{Bytes}
use chain_stresser.Payload.Base.{Account, TxRequest, BaseTx}
use chain_stresser.Payload.Bank.{Coin, ChainTx, BankError, bad_min_gas_price, sign_chain_tx}

-- `LegacyDec`, with the one law on whole numbers that the prices rest on.
pub record Decimals : Type 1 where
  pub Decimal : Type 0
  pub of_int : ℕ → Decimal
  -- the number, divided by a power of ten
  pub of_int_with_prec : ℕ → ℕ → Decimal
  pub add : Decimal → Decimal → Decimal
  pub mul : Decimal → Decimal → Decimal
  pub add-of_int : (a b : ℕ) → add (of_int a) (of_int b) ≡ of_int (a + b)

-- `SpotOrder`, and `DerivativeOrder`, which has a margin.
pub record Order (Decimal : Type 0) : Type 0 where
  pub market_id : Bytes
  pub margin : Option Decimal
  pub subaccount_id : Bytes
  pub fee_recipient : Bytes
  pub price : Decimal
  pub quantity : Decimal

-- `MsgBatchUpdateOrders`
pub record BatchUpdate (Decimal : Type 0) : Type 0 where
  pub sender : Bytes
  pub subaccount_id : Bytes
  pub derivative_orders_to_create : List (Order Decimal)
  pub derivative_market_ids_to_cancel_all : List Bytes
  pub spot_orders_to_create : List (Order Decimal)
  pub spot_market_ids_to_cancel_all : List Bytes

pub record ExchangeProvider : Type 0 where
  pub spot_market_ids : List Bytes
  pub derivative_market_ids : List Bytes
  pub min_gas_price : Coin
  pub max_gas_limit : ℕ
  pub memo_attach : Bytes

-- `NewExchangeBatchOrdersProvider`, from the parsed price
unfoldable pub new_exchange_batch_orders_provider :
    Option Coin → List Bytes → List Bytes → Result BankError ExchangeProvider
new_exchange_batch_orders_provider none spot derivative = err bad_min_gas_price
new_exchange_batch_orders_provider (some p) spot derivative = ok (record {
  spot_market_ids = spot;
  derivative_market_ids = derivative;
  min_gas_price = p;
  max_gas_limit = 150000;
  memo_attach = [];
})

-- `r.Int63n(9)`, `r.Int63n(10000)` and the two `r.Intn(2) > 0`
pub record Draws : Type 0 where
  pub price : ℕ
  pub quantity : ℕ
  pub should_cancel_derivative : Bool
  pub should_cancel_spot : Bool

-- The digits of "%024x".
unfoldable pub hex_digits : ℕ → ℕ → Bytes
hex_digits zero n = []
hex_digits (suc k) n =
    hex_digits k (n / 16) ++ (if ltb (n % 16) 10 then 48 + n % 16 else 87 + n % 16) ∷ []

-- `subaccount`: the lower-case text of the address, and the index behind it.
unfoldable pub subaccount : (Bytes → Bytes) → Bytes → ℕ → Bytes
unfolding hex_digits
subaccount hex_to_hash eth_lower_address index =
    hex_to_hash (eth_lower_address ++ hex_digits 24 index)

module _ (dec : Decimals) where
  open dec use {Decimal, of_int, of_int_with_prec, add, mul}

  -- The sender's address and subaccount, and the quantity, which are those of every order.
  module _ (sender account : Bytes) (quantity : Decimal) (cancel : Bool) where
    abbrev pub derivative_order : Bytes → Decimal → Order Decimal
    derivative_order market_id price = record {
      market_id = market_id;
      margin = some (mul price quantity);
      subaccount_id = account;
      fee_recipient = sender;
      price = price;
      quantity = quantity;
    }

    abbrev pub spot_order : Bytes → Decimal → Order Decimal
    spot_order market_id price = record {
      market_id = market_id;
      margin = none;
      subaccount_id = account;
      fee_recipient = sender;
      price = price;
      quantity = quantity;
    }

    -- `if shouldCancelDerivative { ... }` and `if shouldCancelSpot { ... }`
    abbrev pub cancel_derivative : Bytes → BatchUpdate Decimal → BatchUpdate Decimal
    cancel_derivative market_id m =
        if cancel
        then record m {
          derivative_market_ids_to_cancel_all = market_id ∷ [];
          subaccount_id = account;
        }
        else m

    abbrev pub cancel_spot : Bytes → BatchUpdate Decimal → BatchUpdate Decimal
    cancel_spot market_id m =
        if cancel
        then record m { spot_market_ids_to_cancel_all = market_id ∷ []; subaccount_id = account }
        else m

    -- The two loops, from an index, with the price and the message so far.
    unfoldable pub add_derivatives :
        ℕ → List Bytes → Decimal → BatchUpdate Decimal → Decimal × BatchUpdate Decimal
    add_derivatives i [] price m = (price, m)
    add_derivatives i (market_id ∷ ids) price m =
        let price' = add price (of_int (i * 1000)) in
        add_derivatives (suc i) ids price' (
          cancel_derivative market_id (record m {
            derivative_orders_to_create =
                m.derivative_orders_to_create ++ derivative_order market_id price' ∷ [];
          }))

    unfoldable pub add_spots :
        ℕ → List Bytes → Decimal → BatchUpdate Decimal → Decimal × BatchUpdate Decimal
    add_spots i [] price m = (price, m)
    add_spots i (market_id ∷ ids) price m =
        let price' = add price (of_int (i * 1000)) in
        add_spots (suc i) ids price' (
          cancel_spot market_id (record m {
            spot_orders_to_create = m.spot_orders_to_create ++ spot_order market_id price' ∷ [];
          }))

  abbrev pub empty_update : BatchUpdate Decimal
  empty_update = record {
    sender = [];
    subaccount_id = [];
    derivative_orders_to_create = [];
    derivative_market_ids_to_cancel_all = [];
    spot_orders_to_create = [];
    spot_market_ids_to_cancel_all = [];
  }

  -- The message of `GenerateTx`.
  unfoldable pub batch_update : ExchangeProvider → Draws → Bytes → Bytes → BatchUpdate Decimal
  unfolding add_derivatives add_spots
  batch_update p d sender account =
      let quantity = of_int_with_prec (d.quantity + 1) 2 in
      let (price, m) =
        add_derivatives sender account quantity d.should_cancel_derivative 0 p.derivative_market_ids
          (of_int ((d.price + 1) * 1000)) empty_update in
      let (_, m') =
        add_spots sender account quantity d.should_cancel_spot 0 p.spot_market_ids price m in
      record m' { sender = sender }

  module _ {Key : Type 0} (acc_address : Key → Bytes)
      -- the lower-case text of a key's Ethereum address
      (eth_lower_address : Key → Bytes) (hex_to_hash : Bytes → Bytes) where
    -- `exchangeBatchOrdersProvider.GenerateTx`
    unfoldable pub exchange_generate_tx :
        ExchangeProvider → Draws → TxRequest Key → BaseTx Key (BatchUpdate Decimal)
    unfolding batch_update subaccount
    exchange_generate_tx p d req = record {
      from = req.from;
      msgs =
          batch_update p d (acc_address req.from.key)
            (subaccount hex_to_hash (eth_lower_address req.from.key) 0)
          ∷ [];
      tx_bytes = [];
      from_idx = req.from_idx;
      tx_idx = req.tx_idx;
    }

  -- `BuildAndSignTx`
  unfoldable pub exchange_build_and_sign_tx :
      {Key : Type 0}
      → (Account Key → ChainTx (BatchUpdate Decimal) → Option Bytes)
      → ExchangeProvider
      → BaseTx Key (BatchUpdate Decimal)
      → Option (BaseTx Key (BatchUpdate Decimal))
  unfolding sign_chain_tx
  exchange_build_and_sign_tx sign p t =
      sign_chain_tx sign p.min_gas_price p.max_gas_limit p.memo_attach t
