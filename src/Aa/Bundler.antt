-- ===== src/Aa/Bundler.antt =====
-- eth/aa/bundler_client.go and eth/aa/entrypoint.go: the checks of the two clients. The replies of the
-- RPC endpoints and the bindings of the entry point are parameters.
use chain_stresser.Common.{
  ℕ, ◌≡◌, refl, sym, ap, ◌↔◌, ◌==◌, ◌⊎◌, inl, inr, Bool, true, false, not, Option, none, some, List,
  [], ◌∷◌, ◌++◌, Result, ok, err, ◌>>=◌, if◌then◌else◌, Bool-cases, drop, length,
}
use chain_stresser.Common.Bytes.{
  Bytes, codes, eq_bytes, eq_bytes_refl, eq_bytes→eq, contains, starts_with,
}
use chain_stresser.Aa.UserOp.{PackedUserOperation}

pub data ClientError : Type 0 where
  failed_to_dial : ClientError
  failed_to_get_entry_points : ClientError
  entry_point_not_supported : ClientError
  failed_to_wrap : ClientError
  failed_to_get_abi : ClientError
  failed_to_get_chain_id : ClientError
  chain_id_mismatch : ClientError
  failed_to_pack : ClientError
  failed_to_send : ClientError
  failed_to_fetch : ClientError

abbrev client_result {ℓ} : {A : Type ℓ} → ClientError → Option A → Result ClientError A
client_result e none = err e
client_result e (some a) = ok a

abbrev must : ClientError → Bool → Result ClientError Bool
must e true = ok true
must e false = err e

-- The loop over the supported entry points, with its break.
unfoldable pub is_supported : Bytes → List Bytes → Bool
is_supported entrypoint [] = false
is_supported entrypoint (ep ∷ eps) =
    let rest = is_supported entrypoint eps in if eq_bytes ep entrypoint then true else rest

-- `bundlerClient`, of what its methods use.
pub record BundlerClient : Type 0 where
  pub entrypoint_address : Bytes
  pub account_factory_address : Bytes

-- `NewBundlerClient`; `entry_points` is the reply to eth_supportedEntryPoints.
unfoldable pub new_bundler_client :
    Bool → Option (List Bytes) → Bytes → Bytes → Result ClientError BundlerClient
unfolding is_supported
new_bundler_client dialled entry_points entrypoint factory = do
  _ ← must failed_to_dial dialled
  eps ← client_result failed_to_get_entry_points entry_points
  _ ← must entry_point_not_supported (is_supported entrypoint eps)
  ok (record { entrypoint_address = entrypoint; account_factory_address = factory })

-- The reply to eth_sendUserOperation is the hash of the bundler.
abbrev pub sent : (Bytes → Bytes) → Bytes → Option Bytes → Bytes × Option ClientError
sent bytes_to_hash op_hash none = (op_hash, some failed_to_send)
sent bytes_to_hash op_hash (some ret) =
    if not (eq_bytes ret op_hash) then (bytes_to_hash ret, none) else (op_hash, none)

-- `sendUserOperation`: the hash, and the error beside it.
unfoldable pub send_user_operation :
    (Bytes → Bytes)
    → (PackedUserOperation → Bytes → Option Bytes)
    → BundlerClient
    → PackedUserOperation
    → Bytes
    → Bytes × Option ClientError
send_user_operation bytes_to_hash call c op op_hash =
    sent bytes_to_hash op_hash (call op c.entrypoint_address)

-- `isAA25NonceError`
unfoldable pub is_aa25_nonce_error : Option Bytes → Bool
is_aa25_nonce_error none = false
is_aa25_nonce_error (some text) =
    if contains text (codes "AA25")
    then true
    else if contains text (codes "invalid account nonce")
    then true
    else false

-- `ensureOnly0x`
unfoldable pub ensure_only_0x : Bytes → Bytes
ensure_only_0x str = if starts_with (codes "0x0") str then codes "0x" ++ drop 3 str else str

-- `NewEntrypoint`: what it dials, wraps and parses, and the chain IDs that it compares.
unfoldable pub new_entrypoint :
    Bool → Bool → Bool → Option ℕ → ℕ → Bytes → Bytes → Result ClientError (Bytes × Bytes)
new_entrypoint dialled wraps abi rpc_chain_id chain_id entrypoint beneficiary = do
  _ ← must failed_to_dial dialled
  _ ← must failed_to_wrap wraps
  _ ← must failed_to_get_abi abi
  id ← client_result failed_to_get_chain_id rpc_chain_id
  _ ← must chain_id_mismatch (id == chain_id)
  ok (entrypoint, beneficiary)

-- `HandleOpsCallData`; the copy into the bindings' own type keeps the operations.
unfoldable pub handle_ops_call_data :
    (List PackedUserOperation → Bytes → Option Bytes)
    → List PackedUserOperation
    → Bytes
    → Result ClientError Bytes
handle_ops_call_data abi_pack ops beneficiary =
    client_result failed_to_pack (abi_pack ops beneficiary)

abbrev failed : ClientError → Result ClientError BundlerClient
failed e = err e

err-ne-ok : (e : ClientError) (c : BundlerClient) → failed e ≡ ok c → ⊥
err-ne-ok e c p = cc

abbrev pub Has : Bytes → List Bytes → Type 0
Has x [] = ⊥
Has x (y ∷ ys) = (y ≡ x) ⊎ Has x ys

is_supported-Has : (x : Bytes) (eps : List Bytes) → is_supported x eps ≡ true → Has x eps
unfolding is_supported
is_supported-Has x [] h = cc h
is_supported-Has x (ep ∷ eps) h = elim (Bool-cases (eq_bytes ep x)) [
  | inl same ↦ inl (eq_bytes→eq ep x same)
  | inr other ↦ inr (is_supported-Has x eps (rw other at h))
]

Has-is_supported : (x : Bytes) (eps : List Bytes) → Has x eps → is_supported x eps ≡ true
unfolding is_supported
Has-is_supported x [] h = absurd h
Has-is_supported x (ep ∷ eps) (inl e) = rw (e, eq_bytes_refl x) refl
Has-is_supported x (ep ∷ eps) (inr h) = elim (Bool-cases (eq_bytes ep x)) [
  | inl same ↦ rw same refl
  | inr other ↦ rw other (Has-is_supported x eps h)
]

sent-hash :
    (bytes_to_hash : Bytes → Bytes) (op_hash ret : Bytes)
    → ((b : Bytes) → length b ≡ 32 → bytes_to_hash b ≡ b)
    → length ret ≡ 32
    → sent bytes_to_hash op_hash (some ret) ≡ (ret, none)
sent-hash bytes_to_hash op_hash ret keeps sized = elim (Bool-cases (eq_bytes ret op_hash)) [
  | inl same ↦ rw same (ap (λ (h : Bytes). (h, none)) (sym (eq_bytes→eq ret op_hash same)))
  | inr other ↦ rw (other, keeps ret sized) refl
]

-- A bundler client is made of a dialled endpoint exactly when the entry point is among those that the
-- bundler lists. An operation that such a client sends has the hash that the bundler replied, its own
-- or another one of 32 bytes, and on a failure its own hash beside the error.
pub bundler_client-Has :
    (bytes_to_hash : Bytes → Bytes) (call : PackedUserOperation → Bytes → Option Bytes)
    (eps : List Bytes) (entrypoint factory : Bytes)
    → ((b : Bytes) → length b ≡ 32 → bytes_to_hash b ≡ b)
    → (Has entrypoint eps ↔ (
        new_bundler_client true (some eps) entrypoint factory
        ≡ ok (record { entrypoint_address = entrypoint; account_factory_address = factory })))
      × ((c : BundlerClient) (op : PackedUserOperation) (op_hash ret : Bytes)
          → call op c.entrypoint_address ≡ some ret
          → length ret ≡ 32
          → send_user_operation bytes_to_hash call c op op_hash ≡ (ret, none))
      × ((c : BundlerClient) (op : PackedUserOperation) (op_hash : Bytes)
          → call op c.entrypoint_address ≡ none
          → send_user_operation bytes_to_hash call c op op_hash ≡ (op_hash, some failed_to_send))
unfolding new_bundler_client send_user_operation
bundler_client-Has bytes_to_hash call eps entrypoint factory keeps = (
  (
    λ h. rw (Has-is_supported entrypoint eps h) refl,
    λ made. elim (Bool-cases (is_supported entrypoint eps)) [
      | inl yes' ↦ is_supported-Has entrypoint eps yes'
      | inr not_there ↦ absurd (err-ne-ok _ _ (rw (new_bundler_client, not_there) at made))
    ],
  ),
  λ c op op_hash ret e sized.
      rw (send_user_operation, e) (sent-hash bytes_to_hash op_hash ret keeps sized),
  λ c op op_hash e. rw (send_user_operation, e) refl,
)
