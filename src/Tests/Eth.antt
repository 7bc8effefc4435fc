-- ===== src/Tests/Eth.antt =====
-- The Ethereum payloads and the user operations on small inputs. Keys are numbers, and the contracts'
-- encodings are short lists of bytes.
use chain_stresser.Common.{
  ℕ, suc, ◌+◌, ◌*◌, ◌≡◌, refl, arith, true, Option, none, some, [], ◌∷◌, Result, ok,
}
use chain_stresser.Common.Bytes.{Bytes}
use chain_stresser.Common.Int.{ℤ}
use chain_stresser.Payload.Base.{TxRequest}
use chain_stresser.Payload.Bank.{Coin}
use chain_stresser.Payload.Eth.{LegacyTx, EthMsg, EthError, EthCallProvider, eth_call_generate_tx}
use chain_stresser.Payload.Eth.Provision.{query_account, initial_tx, deployed_then_called}
use chain_stresser.Payload.Eth.Signer.{Library}
use chain_stresser.Stress.Initial.{create_initial_txs}

abbrev price : Coin
price = record { denom = "inj"; amount = 7 }

-- The text of a coin is read by its first byte.
abbrev parse_coin : Bytes → Option Coin
parse_coin [] = none
parse_coin (c ∷ s) = some (record { denom = "inj"; amount = c })

abbrev call_provider : EthCallProvider
call_provider = record {
  min_gas_price = price;
  max_gas_limit = 50000;
  max_gas_limit_deployment = 230000;
  iterations = 0;
  contract_address = 0;
}

abbrev request : TxRequest ℕ
request = record {
  keys = 10 ∷ 11 ∷ [];
  from = record { name = []; key = 11; number = 0; sequence = 5 };
  from_idx = 1;
  tx_idx = 3;
}

abbrev key_address : ℕ → ℕ
key_address k = 100 + k

abbrev create_address : ℕ → ℕ → ℕ
create_address a n = 1000 * a + n

-- Every account has the key as its number and 4 as its sequence; the node is a counter of queries.
abbrev query : ℕ → ℕ → Result EthError (ℕ × ℕ) × ℕ
query n key = (ok (key, 4), suc n)

abbrev increase : Bytes
increase = 1 ∷ 2 ∷ []

abbrev no_int_call : ℤ → Option Bytes
no_int_call z = none

abbrev bin : Bytes
bin = 9 ∷ []

deployed_then_called_example :
    (n' : ℕ) × (p' : EthCallProvider) × (create_initial_txs
        (query_account key_address create_address bin query)
        (initial_tx key_address create_address bin query)
        0
        (10 ∷ 11 ∷ [])
        (0, call_provider)
      ≡ (
        ok (
            (record {
              from = record { name = []; key = 10; number = 10; sequence = 4 };
              msgs =
                  (record {
                    raw = record {
                      nonce = 4;
                      to = none;
                      value = 0;
                      gas = 230000;
                      gas_price = price.amount;
                      input = bin;
                    };
                    signature = none;
                    from = none;
                  })
                  ∷ [];
              tx_bytes = [];
              from_idx = 0;
              tx_idx = 0;
            })
            ∷ []),
        (n', p'),
      ))
    × ((req : TxRequest ℕ) (b : Bytes)
        → eth_call_generate_tx (some b) p' req
          ≡ ok (record {
            from = req.from;
            msgs =
                (record {
                  raw = record {
                    nonce = req.from.sequence;
                    to = some (create_address 110 4);
                    value = 0;
                    gas = 50000;
                    gas_price = 7;
                    input = b;
                  };
                  signature = none;
                  from = none;
                })
                ∷ [];
            tx_bytes = [];
            from_idx = req.from_idx;
            tx_idx = req.tx_idx;
          }))
deployed_then_called_example =
    deployed_then_called key_address create_address bin query 10 (11 ∷ []) 0 call_provider 10 4 refl
      ((11, 4), refl, tt) (omega arith)

abbrev text : Bytes
text = 7 ∷ []

-- A library that signs with the hash and the key, and encodes the signature.
abbrev sign_hash : Bytes → ℕ → Option Bytes
sign_hash h key = some (key ∷ h)

abbrev signature_of : Option Bytes → Bytes
signature_of none = []
signature_of (some b) = b

abbrev library : Library ℕ EthMsg
library = record {
  hash = λ raw. raw.nonce ∷ raw.input;
  sign = sign_hash;
  with_signature = λ sig. some sig;
  address = key_address;
  new_any = true;
  is_extension_builder = true;
  build_tx = λ m d. some m;
  encode = λ m. signature_of m.signature;
}

abbrev raw_tx : LegacyTx
raw_tx = record { nonce = 5; to = none; value = 0; gas = 21000; gas_price = 7; input = [] }

abbrev signed_msg : EthMsg
signed_msg = record { raw = raw_tx; signature = some (11 ∷ 5 ∷ []); from = some 111 }
