-- ===== src/Chain/Sequence/RoundTrip.antt =====
-- chain/client.go: the messages that the SDK and the EVM module print, and what is read out of them.
use chain_stresser.Common.{ℕ, ◌<◌, ◌^◌, ◌≡◌, refl, ap, true, some, ◌++◌, arith}
use mathlib.Core.Option
use text.Mathlib.TextEquality.{eq_iff}
use chain_stresser.Common.Bytes.{Bytes}
use chain_stresser.Chain.Decimal.{is_digit, decimal, parse_uint-decimal}
use chain_stresser.Chain.Sequence.{
  SdkError, SdkErrors, sequence_error, sequence_head, sequence_middle, nonce_head, nonce_middle,
  match_sequence, match_nonce, find_submatch, check_sequence, check_nonce, is_sdk_error_result,
  read_number,
}
use chain_stresser.Chain.Sequence.Search.{NoDigit, match_numbers-decimal, find_submatch_front}

-- The messages: `account sequence mismatch, expected %d, got %d` and `invalid nonce; got %d, expected %d`.
abbrev pub sequence_message : ℕ → ℕ → Bytes → Bytes
sequence_message expected got rest =
    sequence_head ++ (decimal expected ++ (sequence_middle ++ (decimal got ++ rest)))

abbrev pub nonce_message : ℕ → ℕ → Bytes → Bytes
nonce_message got expected rest =
    nonce_head ++ (decimal got ++ (nonce_middle ++ (decimal expected ++ rest)))

sdk_error_self : (e : SdkError) → is_sdk_error_result e.codespace e.abci_code e ≡ true
unfolding is_sdk_error_result
sdk_error_self e = ground (arith, eq_iff e.codespace e.codespace)

sequence_found :
    (expected got : ℕ) (rest : Bytes)
    → NoDigit rest
    → find_submatch match_sequence (sequence_message expected got rest) ≡ some (decimal expected)
sequence_found expected got rest h =
    find_submatch_front match_sequence (sequence_message expected got rest) (
      unfold match_sequence in
      ap (Option.map (λ g. g.0)) (
        match_numbers-decimal sequence_head sequence_middle rest expected got
          (unfold is_digit in refl) h))

nonce_found :
    (got expected : ℕ) (rest : Bytes)
    → NoDigit rest
    → find_submatch match_nonce (nonce_message got expected rest) ≡ some (decimal expected)
nonce_found got expected rest h =
    find_submatch_front match_nonce (nonce_message got expected rest) (
      unfold match_nonce in
      ap (Option.map (λ g. g.1)) (
        match_numbers-decimal nonce_head nonce_middle rest got expected (unfold is_digit in refl)
          h))

-- Whatever the client makes of an SDK error with the code of `ErrWrongSequence` whose log begins with
-- the SDK's message holds the sequence that the message names, for every `uint64` sequence and
-- whatever text without a leading digit follows.
pub check_sequence-message :
    (sdk : SdkErrors) (expected got : ℕ) (rest : Bytes)
    → expected < 2 ^ 64
    → NoDigit rest
    → check_sequence sdk sdk.wrong_sequence.codespace sdk.wrong_sequence.abci_code
        (sequence_message expected got rest)
      ≡ some (sequence_error expected (sequence_message expected got rest))
unfolding check_sequence
check_sequence-message sdk expected got rest h hr = rw (
  sdk_error_self sdk.wrong_sequence,
  sequence_found expected got rest hr,
  parse_uint-decimal expected h,
  read_number,
)

-- The same for `ErrInvalidSequence` and the nonce message of the EVM module.
pub check_nonce-message :
    (sdk : SdkErrors) (got expected : ℕ) (rest : Bytes)
    → expected < 2 ^ 64
    → NoDigit rest
    → check_nonce sdk sdk.invalid_sequence.codespace sdk.invalid_sequence.abci_code
        (nonce_message got expected rest)
      ≡ some (sequence_error expected (nonce_message got expected rest))
unfolding check_nonce
check_nonce-message sdk got expected rest h hr = rw (
  sdk_error_self sdk.invalid_sequence,
  nonce_found got expected rest hr,
  parse_uint-decimal expected h,
  read_number,
)
