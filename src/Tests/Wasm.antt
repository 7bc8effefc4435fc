-- ===== src/Tests/Wasm.antt =====
-- The wasm payloads and the batches of orders on small inputs.
use chain_stresser.Common.{
  ℕ, ◌+◌, ◌*◌, ◌≡◌, ◌≢◌, refl, arith, true, false, Option, none, some, [], ◌∷◌, ◌++◌, ok, err,
  length, All,
}
use chain_stresser.Common.Bytes.{Bytes}
use chain_stresser.Payload.Base.{TxRequest}
use chain_stresser.Payload.Wasm.{WasmProvider}
use chain_stresser.Payload.Wasm.Checksum.{
  wrong_number_of_bytes, marshal_json, unmarshal_json, IsHexDigit, unmarshal-marshal,
}
use chain_stresser.Payload.Exchange.{Decimals, ExchangeProvider, Draws, batch_update}
use chain_stresser.Payload.Exchange.Orders.{
  Matches, with_margin, without_margin, batch_update-Matches,
}

-- Two pages, of 100 and of 5 codes; the second one has the key 1.
abbrev page : Bytes → Option (ℕ × Bytes)
page [] = some (100, 1 ∷ [])
page (b ∷ bs) = some (5, [])

abbrev wasm : WasmProvider
wasm = record {
  min_gas_price = record { denom = "inj"; amount = 1 };
  max_gas_limit = 10000000;
  memo_attach = [];
  init2_salt = 3 ∷ [];
  contract_code_hash = 4 ∷ [];
  contract_code_id = 0;
  contract_address = [];
}

abbrev first : TxRequest ℕ
first = record {
  keys = 10 ∷ [];
  from = record { name = []; key = 10; number = 0; sequence = 0 };
  from_idx = 0;
  tx_idx = 0;
}

abbrev acc_address : ℕ → Bytes
acc_address k = k ∷ []

abbrev init_msg : Bytes → Bytes
init_msg a = 1 ∷ a

abbrev transfer_msg : Bytes → Bytes
transfer_msg a = 2 ∷ a

abbrev build_address : Bytes → Bytes → Bytes → Bytes → Option Bytes
build_address sender hash salt msg = some (99 ∷ sender)

-- Reads a quoted string without escapes: what stands behind the quote, but for its last byte.
abbrev drop_last : Bytes → Bytes
drop_last [] = []
drop_last (b ∷ []) = []
drop_last (b ∷ c ∷ s) = b ∷ drop_last (c ∷ s)

abbrev json_string : Bytes → Option Bytes
json_string [] = none
json_string (b ∷ s) = some (drop_last s)

drop_last-append : (s : Bytes) (b : ℕ) → drop_last (s ++ b ∷ []) ≡ s
drop_last-append [] b = refl
drop_last-append (c ∷ []) b = refl
drop_last-append (c ∷ d ∷ s) b = rw (drop_last-append (d ∷ s) b) refl

reads_back : (s : Bytes) → All IsHexDigit s → json_string (34 ∷ s ++ 34 ∷ []) ≡ some s
reads_back s h = rw (drop_last-append s 34) refl

abbrev checksum : Bytes
checksum = 255 ∷ 16 ∷ []

unmarshal-marshal_example :
    (length checksum ≡ 32 → unmarshal_json json_string (marshal_json checksum) ≡ ok checksum)
    × (length checksum ≢ 32
        → unmarshal_json json_string (marshal_json checksum) ≡ err wrong_number_of_bytes)
unmarshal-marshal_example =
    unmarshal-marshal json_string checksum reads_back (omega arith, (omega arith, tt))

-- Whole numbers, and hundredths rounded down.
abbrev whole : Decimals
whole = record {
  Decimal = ℕ;
  of_int = λ n. n;
  of_int_with_prec = λ n k. n;
  add = λ a b. a + b;
  mul = λ a b. a * b;
  add-of_int = λ a b. refl;
}

abbrev markets : ExchangeProvider
markets = record {
  spot_market_ids = (1 ∷ []) ∷ [];
  derivative_market_ids = (2 ∷ []) ∷ (3 ∷ []) ∷ [];
  min_gas_price = record { denom = "inj"; amount = 1 };
  max_gas_limit = 150000;
  memo_attach = [];
}

abbrev draws : Draws
draws = record {
  price = 4;
  quantity = 9;
  should_cancel_derivative = true;
  should_cancel_spot = false;
}

abbrev ten : ℕ
ten = 10

batch_update-Matches_example :
    Matches whole
      (8 ∷ [])
      (9 ∷ [])
      ten
      (with_margin whole ten)
      5000
      0
      ((2 ∷ []) ∷ (3 ∷ []) ∷ [])
      (batch_update whole markets draws (8 ∷ []) (9 ∷ [])).derivative_orders_to_create
    × Matches whole
        (8 ∷ [])
        (9 ∷ [])
        ten
        (without_margin whole)
        6000
        0
        ((1 ∷ []) ∷ [])
        (batch_update whole markets draws (8 ∷ []) (9 ∷ [])).spot_orders_to_create
    × ((batch_update whole markets draws (8 ∷ []) (9 ∷ [])).derivative_market_ids_to_cancel_all
        ≡ (3 ∷ []) ∷ [])
    × ((batch_update whole markets draws (8 ∷ []) (9 ∷ [])).spot_market_ids_to_cancel_all ≡ [])
    × ((batch_update whole markets draws (8 ∷ []) (9 ∷ [])).sender ≡ 8 ∷ [])
batch_update-Matches_example = batch_update-Matches whole markets draws (8 ∷ []) (9 ∷ [])
