-- ===== src/Aa/Signer.antt =====
-- eth/aa/signer.go: `SignUserOperation`. A panic is an error of its own.
use mathlib.Core.Option
use chain_stresser.Common.{
  ℕ, zero, suc, ◌+◌, ◌%◌, ◌≡◌, refl, Option, none, some, List, [], ◌∷◌, ◌++◌, Result, ok, err,
  ◌>>=◌, length, take,
}
use chain_stresser.Common.Bytes.{Bytes, codes}
use chain_stresser.Common.Int.{ℤ}
use chain_stresser.Aa.UserOp.{
  Geth, AbiValue, UserOperation, PackedUserOperation, pack, get_user_op_hash,
}

pub data AaError : Type 0 where
  panics : AaError
  failed_to_sign : AaError
  failed_to_dial : AaError
  failed_to_get_chain_id : AaError
  chain_id_mismatch : AaError
  failed_to_read_address : AaError
  address_not_set : AaError
  failed_to_get_code : AaError
  failed_to_get_nonce : AaError
  failed_to_get_balance : AaError
  no_gas_estimates : AaError
  failed_to_pack : AaError
  light_account_not_found : AaError
  counter_not_set : AaError
  bad_min_gas_price : AaError
  failed_to_create_entrypoint : AaError
  bad_abi : AaError

abbrev pub or_error {ℓ} : {A : Type ℓ} → AaError → Option A → Result AaError A
or_error e none = err e
or_error e (some a) = ok a

-- `sig[i] += 27`, on a byte; `none` is the panic of the index.
unfoldable pub add_27_at : ℕ → Bytes → Option Bytes
add_27_at i [] = none
add_27_at zero (b ∷ s) = some ((b + 27) % 256 ∷ s)
add_27_at (suc i) (b ∷ s) = Option.map (λ t. b ∷ t) (add_27_at i s)

unfoldable pub ec_sig_to_rpc : Bytes → Option Bytes
unfolding add_27_at
ec_sig_to_rpc sig = add_27_at 64 sig

-- "\x19Ethereum Signed Message:\n32" and the hash's bytes
abbrev pub text_to_sign : Bytes → Bytes
text_to_sign op_hash =
    (25 ∷ codes "Ethereum Signed Message:") ++ ((10 ∷ codes "32") ++ take 32 op_hash)

-- `LightAccountSignatureTypeEoa`
abbrev pub signature_type_eoa : ℕ
signature_type_eoa = 0

-- What is written into the packed operation at the end.
abbrev pub with_signature : Bytes → PackedUserOperation → PackedUserOperation
with_signature sig p = record p { signature = signature_type_eoa ∷ sig }

module _ (geth : Geth) (args_pack : List AbiValue → Option Bytes) (keccak256 : Bytes → Bytes) where
  -- `SignUserOperation`, with the fields of `signer` first.
  unfoldable pub sign_user_operation :
      Bytes
      → ℤ
      → (Bytes → Option Bytes)
      → UserOperation
      → Result AaError (PackedUserOperation × Bytes)
  sign_user_operation entry_point chain_id personal_sign op = do
    p ← or_error panics (pack geth op)
    h ← or_error panics (get_user_op_hash args_pack keccak256 entry_point chain_id p)
    sig ← or_error failed_to_sign (personal_sign (text_to_sign h))
    rpc ← or_error panics (ec_sig_to_rpc sig)
    ok (with_signature rpc p, h)

add_27_at-append :
    (rs : Bytes) (v : ℕ) → add_27_at (length rs) (rs ++ v ∷ []) ≡ some (rs ++ (v + 27) % 256 ∷ [])
unfolding add_27_at
add_27_at-append [] v = refl
add_27_at-append (r ∷ rs) v = rw (add_27_at-append rs v) refl

-- The last of 65 bytes is raised.
pub ec_sig_to_rpc-append :
    (rs : Bytes) (v : ℕ)
    → length rs ≡ 64
    → ec_sig_to_rpc (rs ++ v ∷ []) ≡ some (rs ++ (v + 27) % 256 ∷ [])
unfolding ec_sig_to_rpc
ec_sig_to_rpc-append rs v h = rw h at (add_27_at-append rs v)
