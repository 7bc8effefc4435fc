-- ===== src/Tests/Clients.antt =====
-- Signing and the bundler's client on small inputs.
use mathlib.Core.Option
use chain_stresser.Common.{
  ℕ, ◌≡◌, refl, sym, ap, ◌↔◌, true, Option, none, some, [], ◌∷◌, ◌++◌, ok, length,
}
use chain_stresser.Common.Bytes.{Bytes, eq_bytes, eq_bytes_refl}
use chain_stresser.Chain.Signing.{TxConfig, Signature, build_and_sign, build_and_sign-verifies}
use chain_stresser.Aa.UserOp.{PackedUserOperation}
use chain_stresser.Aa.Bundler.{
  Has, BundlerClient, new_bundler_client, send_user_operation, failed_to_send, bundler_client-Has,
}

-- A builder is the gas and the last signature; the bytes to sign are the numbers and the gas; a
-- signature is the key and what it signs.
abbrev sign_key : ℕ → Bytes → Option Bytes
sign_key key msg = some (key ∷ msg)

verified :
    (key : ℕ) (msg sig : Bytes) → sign_key key msg ≡ some sig → eq_bytes sig (key ∷ msg) ≡ true
verified key msg sig e = let same : sig ≡ key ∷ msg = cc in rw same (eq_bytes_refl (key ∷ msg))

abbrev set_last : Signature → ℕ × Option Signature → Option (ℕ × Option Signature)
set_last s b = some (b.0, some s)

-- The last signature of what the builder gives is the one that is set.
signature_set :
    (s : Signature) (b b' : ℕ × Option Signature) → set_last s b ≡ some b' → b'.1 ≡ some s
signature_set s b b' e = let same : b' ≡ (b.0, some s) = cc in rw same refl

abbrev config : TxConfig ℕ ℕ
config = record {
  Builder = ℕ × Option Signature;
  new_tx_builder = (0, none);
  set_gas_limit = λ g b. (g, b.1);
  set_fee_amount = λ f b. b;
  set_memo = λ m b. b;
  set_msgs = λ ms b. some b;
  set_signatures = set_last;
  sign_bytes = λ sd b. some (sd.account_number ∷ sd.sequence ∷ b.0 ∷ []);
  signature_in = λ b. b.1;
  pub_key = λ k. k ∷ [];
  sign = sign_key;
  verify = λ pk msg sig. eq_bytes sig (pk ++ msg);
  set_signatures-in = λ s b b' e. signature_set s b b' e;
  set_signatures-bytes = λ sd s b b' b'' sig e f. sym (
      ap (Option.map (λ (x : ℕ × Option Signature). sd.account_number ∷ sd.sequence ∷ x.0 ∷ [])) f);
  verify-sign = verified;
}

build_and_sign-verifies_example :
    (b : ℕ × Option Signature) × (bytes : Bytes) × (sig : Bytes) × (build_and_sign config "inj" 10 2
        5 [] 7 []
        (1 ∷ [])
      ≡ ok b)
    × (b.1 ≡ some (record { pub_key = 10 ∷ []; signature = some sig; sequence = 5 }))
    × (config.sign_bytes (record { chain_id = "inj"; account_number = 2; sequence = 5 }) b
        ≡ some bytes)
    × (config.verify (10 ∷ []) bytes sig ≡ true)
build_and_sign-verifies_example = build_and_sign-verifies config "inj" 10 2 5 [] 7 [] (1 ∷ []) (
  λ b. (b, refl),
  λ s b. ((b.0, some s), refl),
  λ sd b. (sd.account_number ∷ sd.sequence ∷ b.0 ∷ [], refl),
  λ bytes. (10 ∷ bytes, refl),
)

abbrev to_hash : Bytes → Bytes
to_hash b = b

abbrev call : PackedUserOperation → Bytes → Option Bytes
call op entrypoint = some op.signature

bundler_client-Has_example :
    (Has (2 ∷ []) ((1 ∷ []) ∷ (2 ∷ []) ∷ []) ↔ (
      new_bundler_client true (some ((1 ∷ []) ∷ (2 ∷ []) ∷ [])) (2 ∷ []) (3 ∷ [])
      ≡ ok (record { entrypoint_address = 2 ∷ []; account_factory_address = 3 ∷ [] })))
    × ((c : BundlerClient) (op : PackedUserOperation) (op_hash ret : Bytes)
        → some op.signature ≡ some ret
        → length ret ≡ 32
        → send_user_operation to_hash call c op op_hash ≡ (ret, none))
    × ((c : BundlerClient) (op : PackedUserOperation) (op_hash : Bytes)
        → some op.signature ≡ none
        → send_user_operation to_hash call c op op_hash ≡ (op_hash, some failed_to_send))
bundler_client-Has_example =
    bundler_client-Has to_hash call ((1 ∷ []) ∷ (2 ∷ []) ∷ []) (2 ∷ []) (3 ∷ []) (λ b h. refl)
