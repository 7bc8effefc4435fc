-- ===== src/Chain/Signing.antt =====
-- chain/client.go: `buildAndSignTx` and `signTx`. The transaction builder, the sign bytes and the keys
-- are the Cosmos SDK's; what is relied on are the laws of `TxConfig`.
use chain_stresser.Common.{
  ℕ, ◌≡◌, refl, ◌∙◌, Bool, true, Option, none, some, List, [], ◌∷◌, Result, ok, err, ◌>>=◌, String,
}
use chain_stresser.Common.Bytes.{Bytes}
use chain_stresser.Payload.Bank.{Coin}

pub data SigningError : Type 0 where
  panics : SigningError
  failed_to_set_messages : SigningError
  failed_to_set_signatures : SigningError
  failed_to_sign : SigningError

-- `authsigning.SignerData`
pub record SignerData : Type 0 where
  pub chain_id : String
  pub account_number : ℕ
  pub sequence : ℕ

-- `signing.SignatureV2` in direct mode, with the signature of its data.
pub record Signature : Type 0 where
  pub pub_key : Bytes
  pub signature : Option Bytes
  pub sequence : ℕ

-- The signature that is set is the transaction's. It is not among the bytes that are signed, and a later one replaces
-- it; a key verifies what it has signed.
pub record TxConfig (Key M : Type 0) : Type 1 where
  pub Builder : Type 0
  pub new_tx_builder : Builder
  pub set_gas_limit : ℕ → Builder → Builder
  pub set_fee_amount : List Coin → Builder → Builder
  pub set_memo : Bytes → Builder → Builder
  pub set_msgs : List M → Builder → Option Builder
  pub set_signatures : Signature → Builder → Option Builder
  pub sign_bytes : SignerData → Builder → Option Bytes
  pub signature_in : Builder → Option Signature
  pub pub_key : Key → Bytes
  pub sign : Key → Bytes → Option Bytes
  pub verify : Bytes → Bytes → Bytes → Bool
  pub set_signatures-in :
      (s : Signature) (b b' : Builder) → set_signatures s b ≡ some b' → signature_in b' ≡ some s
  pub set_signatures-bytes :
      (sd : SignerData) (s : Signature) (b b' b'' : Builder) (sig : Bytes)
      → set_signatures s b ≡ some b'
      → set_signatures (record s { signature = some sig }) b' ≡ some b''
      → sign_bytes sd b'' ≡ sign_bytes sd b'
  pub verify-sign :
      (key : Key) (msg sig : Bytes) → sign key msg ≡ some sig → verify (pub_key key) msg sig ≡ true

abbrev or_error {ℓ} : {A : Type ℓ} → SigningError → Option A → Result SigningError A
or_error e none = err e
or_error e (some a) = ok a

module _ {Key M : Type 0} (config : TxConfig Key M) (chain_id : String) where
  open config use {
    Builder, new_tx_builder, set_gas_limit, set_fee_amount, set_memo, set_msgs, set_signatures,
    sign_bytes, pub_key, sign,
  }

  abbrev pub signer_data : ℕ → ℕ → SignerData
  signer_data number sequence = record {
    chain_id = chain_id;
    account_number = number;
    sequence = sequence;
  }

  abbrev pub signature_of : Key → ℕ → Option Bytes → Signature
  signature_of key sequence sig = record {
    pub_key = pub_key key;
    signature = sig;
    sequence = sequence;
  }

  -- `signTx`: the signature is set without its bytes first, so that the bytes to sign have the key.
  unfoldable pub sign_tx : Key → ℕ → ℕ → Builder → Result SigningError Builder
  sign_tx key number sequence b = do
    b' ← or_error failed_to_set_signatures (set_signatures (signature_of key sequence none) b)
    bytes_to_sign ← or_error panics (sign_bytes (signer_data number sequence) b')
    sig ← or_error failed_to_sign (sign key bytes_to_sign)
    or_error failed_to_set_signatures (set_signatures (signature_of key sequence (some sig)) b')

  abbrev pub with_memo : Bytes → Builder → Builder
  with_memo [] b = b
  with_memo (c ∷ s) b = set_memo (c ∷ s) b

  -- `buildAndSignTx`
  unfoldable pub build_and_sign :
      Key → ℕ → ℕ → List Coin → ℕ → Bytes → List M → Result SigningError Builder
  unfolding sign_tx
  build_and_sign key number sequence fee gas_limit memo msgs = do
    b ← or_error failed_to_set_messages (
        set_msgs msgs
          (with_memo memo (set_fee_amount fee (set_gas_limit gas_limit new_tx_builder))))
    sign_tx key number sequence b

  -- The builder takes the messages and any signature and has bytes to sign, and the key signs them.
  abbrev pub Accepts : Key → List M → Type 0
  Accepts key msgs =
      ((b : Builder) → (b' : Builder) × (set_msgs msgs b ≡ some b'))
      × ((s : Signature) (b : Builder) → (b' : Builder) × (set_signatures s b ≡ some b'))
      × ((sd : SignerData) (b : Builder) → (bytes : Bytes) × (sign_bytes sd b ≡ some bytes))
      × ((bytes : Bytes) → (sig : Bytes) × (sign key bytes ≡ some sig))

  -- When the builder takes the messages and any signature and has bytes to sign, and the key signs
  -- them, a transaction is built. Its signature has the sender's public key and the account's
  -- sequence, and its own sign bytes, for the chain and the account's number and sequence, verify
  -- against that signature under the sender's public key.
  pub build_and_sign-verifies :
      (key : Key) (number sequence : ℕ) (fee : List Coin) (gas_limit : ℕ) (memo : Bytes)
      (msgs : List M)
      → Accepts key msgs
      → (b : Builder) × (bytes : Bytes) × (sig : Bytes) × (build_and_sign key number sequence fee
            gas_limit memo msgs
          ≡ ok b)
        × (config.signature_in b
            ≡ some (record { pub_key = pub_key key; signature = some sig; sequence = sequence }))
        × (sign_bytes
              (record { chain_id = chain_id; account_number = number; sequence = sequence })
              b
            ≡ some bytes)
        × (config.verify (pub_key key) bytes sig ≡ true)
  unfolding build_and_sign sign_tx
  build_and_sign-verifies key number sequence fee gas_limit memo msgs
        (takes_msgs, takes_signature, has_bytes, signs) =
      let prepared = with_memo memo (set_fee_amount fee (set_gas_limit gas_limit new_tx_builder)) in
      let (b, e1) = takes_msgs prepared in
      let (b', e2) = takes_signature (signature_of key sequence none) b in
      let (bytes, e3) = has_bytes (signer_data number sequence) b' in
      let (sig, e4) = signs bytes in
      let (b'', e5) = takes_signature (signature_of key sequence (some sig)) b' in
      (
        b'',
        bytes,
        sig,
        rw (e1, e2, e3, e4, e5) refl,
        config.set_signatures-in (signature_of key sequence (some sig)) b' b'' e5,
        config.set_signatures-bytes (signer_data number sequence) (signature_of key sequence none) b
              b' b'' sig e2 e5
            ∙ e3,
        config.verify-sign key bytes sig e4,
      )
