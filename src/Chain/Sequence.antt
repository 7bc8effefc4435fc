-- ===== src/Chain/Sequence.antt =====
-- chain/client.go: `checkSequence`, `checkNonce` and `IsSequenceError`. The node does not return the
-- sequence that it expects as a value, so the client searches the message of the error for it.
pub mod Search
pub mod RoundTrip
use chain_stresser.Common.{
  ℕ, ◌≡◌, Bool, true, false, ◌&&◌, Option, none, some, List, [], ◌∷◌, ◌++◌, ◌==◌, if◌then◌else◌,
  String,
}
use mathlib.Core.Option
use text.Mathlib.Text.{◌==◌ as str_eq}
use chain_stresser.Common.Bytes.{Bytes, codes, contains, starts_with}
use chain_stresser.Chain.Decimal.{parse_uint, span_digits}

-- An error registered by the Cosmos SDK (`errorsmod.Error`). The SDK is a parameter.
pub record SdkError : Type 0 where
  pub codespace : String
  pub abci_code : ℕ

pub record SdkErrors : Type 0 where
  pub wrong_sequence : SdkError
  pub invalid_sequence : SdkError
  pub tx_in_mempool_cache : SdkError
  pub mempool_is_full : SdkError

pub data Error : Type 0 where
  -- `sequenceError`: the expected sequence, and the message
  sequence_error : ℕ → Bytes → Error
  -- "cosmos sdk hasn't returned expected … number"
  no_number : Bytes → Error
  -- "can't parse expected … number"
  unparsable : Bytes → Error
  -- "node returned non-zero code for tx …": code and log
  non_zero_code : ℕ → Bytes → Error
  -- the error of the RPC call as it is
  rpc_failed : Error
  -- "failed to decode tx hash as hex"
  bad_hash : Error
  -- "transaction timed out while await until included in the block"
  await_timed_out : Error
  -- "got tendermint error"
  tendermint_error : Error

-- The rest of the text behind a literal.
unfoldable pub strip_prefix : Bytes → Bytes → Option Bytes
strip_prefix [] s = some s
strip_prefix (p ∷ ps) [] = none
strip_prefix (p ∷ ps) (c ∷ s) = let rest = strip_prefix ps s in if p == c then rest else none

-- A literal, and what follows it.
abbrev pub after_prefix {ℓ} : {A : Type ℓ} → Bytes → Bytes → (Bytes → Option A) → Option A
after_prefix p s f = elim (strip_prefix p s) [ none ↦ none | some rest ↦ f rest ]

-- `\d+` and what follows it: at least one digit, as many as there are. No literal that follows a
-- `\d+` here begins with a digit, so a match can only take all of them.
abbrev pub some_digits {ℓ} : {A : Type ℓ} → Bytes × Bytes → (Bytes → Bytes → Option A) → Option A
some_digits ([], rest) f = none
some_digits (d ∷ ds, rest) f = f (d ∷ ds) rest

-- The regular expression `head(\d+)middle(\d+)`, at the front of a text: both runs of digits.
unfoldable pub match_numbers : Bytes → Bytes → Bytes → Option (Bytes × Bytes)
match_numbers head middle s = after_prefix head s λ t.
    some_digits (span_digits t)
      λ ds t'. after_prefix middle t' λ t''. some_digits (span_digits t'') λ es _. some (ds, es)

abbrev pub sequence_head : Bytes
sequence_head = codes "account sequence mismatch, expected "

abbrev pub sequence_middle : Bytes
sequence_middle = codes ", got "

abbrev pub nonce_head : Bytes
nonce_head = codes "invalid nonce; got "

abbrev pub nonce_middle : Bytes
nonce_middle = codes ", expected "

-- `account sequence mismatch, expected (\d+), got \d+`, at the front: the group's text.
unfoldable pub match_sequence : Bytes → Option Bytes
match_sequence s = Option.map (λ g. g.0) (match_numbers sequence_head sequence_middle s)

-- `invalid nonce; got \d+, expected (\d+)`, at the front: the group's text.
unfoldable pub match_nonce : Bytes → Option Bytes
match_nonce s = Option.map (λ g. g.1) (match_numbers nonce_head nonce_middle s)

-- `FindStringSubmatch`: the group of the leftmost match.
unfoldable pub find_submatch : (Bytes → Option Bytes) → Bytes → Option Bytes
find_submatch m [] = m []
find_submatch m (c ∷ s) =
    let rest = find_submatch m s in elim (m (c ∷ s)) [ none ↦ rest | some ds ↦ some ds ]

unfoldable pub is_sdk_error_result : String → ℕ → SdkError → Bool
is_sdk_error_result codespace code e = str_eq codespace e.codespace && code == e.abci_code

-- The common tail of the two checks.
abbrev pub read_number : Bytes → Option Bytes → Error
read_number log none = no_number log
read_number log (some ds) = elim (parse_uint ds) [
  | none ↦ unparsable log
  | some n ↦ sequence_error n log
]

module _ (sdk : SdkErrors) where
  unfoldable pub check_sequence : String → ℕ → Bytes → Option Error
  unfolding is_sdk_error_result
  check_sequence codespace code log =
      if is_sdk_error_result codespace code sdk.wrong_sequence
      then some (read_number log (find_submatch match_sequence log))
      else none

  unfoldable pub check_nonce : String → ℕ → Bytes → Option Error
  unfolding is_sdk_error_result
  check_nonce codespace code log =
      if is_sdk_error_result codespace code sdk.invalid_sequence
      then some (read_number log (find_submatch match_nonce log))
      else none

-- `errors.As` finds the `sequenceError` under the stack that wraps it.
unfoldable pub is_sequence_error : Error → Option ℕ
is_sequence_error (sequence_error n log) = some n
is_sequence_error _ = none
