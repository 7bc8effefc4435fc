-- ===== src/Payload/Eth/Signer.antt =====
-- payload/eth_signer.go: `BuildAndSignTx` of the Ethereum providers. The cryptography of go-ethereum,
-- the SDK's transaction builder and `Encode` are parameters.
use chain_stresser.Common.{
  ℕ, ◌≡◌, refl, Bool, true, false, Option, none, some, List, [], ◌∷◌, Result, ok, err, ◌>>=◌,
  String,
}
use chain_stresser.Common.Bytes.{Bytes}
use chain_stresser.Payload.Base.{BaseTx, with_bytes}
use chain_stresser.Payload.Eth.{LegacyTx, EthMsg}

pub data SignError : Type 0 where
  failed_to_sign : SignError
  failed_to_update : SignError
  failed_to_init_any : SignError
  not_extension_builder : SignError
  failed_to_build : SignError

abbrev or_error {ℓ} : {A : Type ℓ} → SignError → Option A → Result SignError A
or_error e none = err e
or_error e (some a) = ok a

abbrev checked : SignError → Bool → Result SignError Bool
checked e true = ok true
checked e false = err e

-- What the signer calls. `hash` is `ethSigner.Hash`, `with_signature` the signature that is set when
-- `WithSignature` accepts it, `build_tx` `MsgEthereumTx.BuildTx`.
pub record Library (Key T : Type 0) : Type 0 where
  pub hash : LegacyTx → Bytes
  pub sign : Bytes → Key → Option Bytes
  pub with_signature : Bytes → Option Bytes
  pub address : Key → ℕ
  pub new_any : Bool
  pub is_extension_builder : Bool
  pub build_tx : EthMsg → String → Option T
  pub encode : T → Bytes

module _ {Key T : Type 0} (lib : Library Key T) where
  -- The message is changed in place, through the pointer that both transactions hold.
  unfoldable pub sign_msg : Key → EthMsg → Result SignError EthMsg
  sign_msg key m = do
    sig ← or_error failed_to_sign (lib.sign (lib.hash m.raw) key)
    set ← or_error failed_to_update (lib.with_signature sig)
    ok (record m { signature = some set; from = some (lib.address key) })

  unfoldable pub sign_first :
      String → BaseTx Key EthMsg → EthMsg → List EthMsg → Result SignError (BaseTx Key EthMsg)
  unfolding sign_msg with_bytes
  sign_first fee_denom t m ms = do
    signed ← sign_msg t.from.key m
    _ ← checked failed_to_init_any lib.new_any
    _ ← checked not_extension_builder lib.is_extension_builder
    built ← or_error failed_to_build (lib.build_tx signed fee_denom)
    ok (with_bytes (lib.encode built) (record t { msgs = signed ∷ ms }))

  -- `ethTxBuilderAndSigner.BuildAndSignTx`; without a message `Msgs()[0]` panics, which is `none`.
  unfoldable pub eth_build_and_sign_tx :
      String → BaseTx Key EthMsg → Option (Result SignError (BaseTx Key EthMsg))
  unfolding sign_first
  eth_build_and_sign_tx fee_denom t = elim t.msgs [
    | [] ↦ none
    | m ∷ ms ↦ some (sign_first fee_denom t m ms)
  ]

  -- When the library accepts the transaction, what is signed is what was generated: the hash of the
  -- first message under the sender's key, with the sender's address, and the bytes are those that the
  -- builder makes of it. The sender and the indices, which the pipeline goes by, are kept.
  pub eth_build_and_sign_tx-ok :
      (fee_denom : String) (t : BaseTx Key EthMsg) (m : EthMsg) (ms : List EthMsg) (sig set : Bytes)
      (built : T)
      → t.msgs ≡ m ∷ ms
      → lib.new_any ≡ true
      → lib.is_extension_builder ≡ true
      → lib.sign (lib.hash m.raw) t.from.key ≡ some sig
      → lib.with_signature sig ≡ some set
      → lib.build_tx
          (record { raw = m.raw; signature = some set; from = some (lib.address t.from.key) })
          fee_denom
        ≡ some built
      → (s : BaseTx Key EthMsg) × (eth_build_and_sign_tx fee_denom t ≡ some (ok s))
        × (s.msgs
            ≡ record { raw = m.raw; signature = some set; from = some (lib.address t.from.key) }
              ∷ ms)
        × (s.tx_bytes ≡ lib.encode built)
        × (s.from ≡ t.from)
        × (s.from_idx ≡ t.from_idx)
        × (s.tx_idx ≡ t.tx_idx)
  unfolding eth_build_and_sign_tx sign_first sign_msg with_bytes
  eth_build_and_sign_tx-ok fee_denom t m ms sig set built one any ext signs sets builds =
      (_, rw (one, any, ext, signs, sets, builds) refl, refl, refl, refl, refl, refl)
