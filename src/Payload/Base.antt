-- ===== src/Payload/Base.antt =====
-- payload/payload.go: requests and transactions. Every provider's transaction embeds `baseTx`.
use chain_stresser.Common.{ℕ, ◌≡◌, refl, List}
use chain_stresser.Common.Bytes.{Bytes}
use chain_stresser.Stress.Pipeline.{Provider}

-- `chain.Account`, with the type of private keys as a parameter.
pub record Account (Key : Type 0) : Type 0 where
  pub name : Bytes
  pub key : Key
  pub number : ℕ
  pub sequence : ℕ

pub record TxRequest (Key : Type 0) : Type 0 where
  pub keys : List Key
  pub from : Account Key
  pub from_idx : ℕ
  pub tx_idx : ℕ

pub record BaseTx (Key Msg : Type 0) : Type 0 where
  pub from : Account Key
  pub msgs : List Msg
  pub tx_bytes : Bytes
  pub from_idx : ℕ
  pub tx_idx : ℕ

-- `WithBytes`, on a copy.
unfoldable pub with_bytes : {Key Msg : Type 0} → Bytes → BaseTx Key Msg → BaseTx Key Msg
with_bytes b t = record t { tx_bytes = b }

module _ {Key Msg : Type 0} (t : BaseTx Key Msg) (b : Bytes) where
  with_bytes-from_idx : (with_bytes b t).from_idx ≡ t.from_idx
  unfolding with_bytes
  with_bytes-from_idx = refl

  with_bytes-tx_idx : (with_bytes b t).tx_idx ≡ t.tx_idx
  unfolding with_bytes
  with_bytes-tx_idx = refl

-- A provider whose `GenerateTx` makes a `baseTx` with the request's indices and whose
-- `BuildAndSignTx` ends in `WithBytes` is one that the pipeline of `Stress` can run. The sender and
-- the messages are those of an account, an index and a sequence.
pub base_provider :
    {Key Msg : Type 0} → (ℕ → ℕ → ℕ → Account Key × List Msg) → (BaseTx Key Msg → Bytes) → Provider
base_provider {Key} {Msg} content sign = record {
  Tx = BaseTx Key Msg;
  from_idx = λ t. t.from_idx;
  tx_idx = λ t. t.tx_idx;
  bytes = λ t. t.tx_bytes;
  generate_tx = λ i j s. record {
    from = (content i j s).0;
    msgs = (content i j s).1;
    tx_bytes = List.[];
    from_idx = i;
    tx_idx = j;
  };
  sign_tx = λ t. with_bytes (sign t) t;
  from_idx-generate_tx = λ i j s. refl;
  tx_idx-generate_tx = λ i j s. refl;
  from_idx-sign_tx = λ t. with_bytes-from_idx t (sign t);
  tx_idx-sign_tx = λ t. with_bytes-tx_idx t (sign t);
}
