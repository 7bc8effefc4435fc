-- ===== src/Chain/Broadcast.antt =====
-- chain/client.go: `Client.Broadcast`, as a function of the replies that the node gives in turn.
pub mod Mempool
pub mod Inclusion
use chain_stresser.Common.{
  ℕ, ◌≡◌, Bool, true, false, not, ◌&&◌, ◌||◌, Option, none, some, List, [], ◌∷◌, ◌==◌, ltb, leb,
  if◌then◌else◌, String,
}
use text.Mathlib.Text.{◌==◌ as str_eq}
use chain_stresser.Common.Bytes.{Bytes, codes}
use chain_stresser.Common.Int.{ℤ, pos, ltb_ℤ}
use chain_stresser.Chain.Retry.{Attempt, succeeded, retryable, unrecoverable, Retry}
use chain_stresser.Chain.Sequence.{
  SdkErrors, SdkError, Error, non_zero_code, rpc_failed, bad_hash, await_timed_out,
  tendermint_error, check_sequence, check_nonce,
}

-- `sdk.TxResponse`, as far as it is read.
pub record TxResponse : Type 0 where
  pub codespace : String
  pub code : ℕ
  pub tx_hash : Bytes

-- The reply to `BroadcastTxSync`: an RPC error with what `CheckCometError` makes of it, or the
-- result of `CheckTx` with hash, codespace, code and log.
pub data SyncReply : Type 0 where
  sync_error : Option TxResponse → SyncReply
  checked : Bytes → String → ℕ → Bytes → SyncReply

-- The reply to a query of the transaction: an RPC error, which `CheckCometError` knows or not, or
-- the result of its execution with codespace, code, log and height.
pub data PollReply : Type 0 where
  query_error : Bool → PollReply
  tx_result : String → ℕ → Bytes → ℤ → PollReply

-- What the `select` of the await loop takes next.
pub data Tick : Type 0 where
  timed_out : Tick
  polled : PollReply → Tick

abbrev is_hex_digit : ℕ → Bool
is_hex_digit c =
    (leb b'0' c && leb c b'9') || (leb b'a' c && leb c b'f') || (leb b'A' c && leb c b'F')

-- `hex.DecodeString` returns no error.
unfoldable pub is_hex : Bytes → Bool
is_hex [] = true
is_hex (a ∷ []) = false
is_hex (a ∷ b ∷ s) = is_hex_digit a && is_hex_digit b && is_hex s

module _ (sdk : SdkErrors) where
  abbrev has_code : SdkError → TxResponse → Bool
  has_code e res = str_eq res.codespace e.codespace && res.code == e.abci_code

  unfoldable pub is_tx_in_mempool : Option TxResponse → Bool
  is_tx_in_mempool none = false
  is_tx_in_mempool (some res) = has_code sdk.tx_in_mempool_cache res

  unfoldable pub is_mempool_full : Option TxResponse → Bool
  is_mempool_full none = false
  is_mempool_full (some res) = has_code sdk.mempool_is_full res

  abbrev response_hash : Option TxResponse → Bytes → Bytes
  response_hash none old = old
  response_hash (some res) old = res.tx_hash

  -- The error of a result whose code is not 0: a sequence or nonce mismatch, or the code itself.
  unfoldable pub code_error : String → ℕ → Bytes → Error
  code_error codespace code log = elim (check_sequence sdk codespace code log) [
    | some e ↦ e
    | none ↦ elim (check_nonce sdk codespace code log) [
      | some e ↦ e
      | none ↦ non_zero_code code log
    ]
  ]

  -- One attempt; the state is the variable `txHash`.
  unfoldable pub attempt : Bytes → SyncReply → Attempt Error × Bytes
  unfolding is_mempool_full is_tx_in_mempool
  attempt tx_hash (sync_error res) =
      if is_mempool_full res
      then (retryable, tx_hash)
      else if not (is_tx_in_mempool res)
      then (unrecoverable rpc_failed, tx_hash)
      else (succeeded, response_hash res tx_hash)
  attempt tx_hash (checked hash codespace code log) =
      if not (code == 0)
      then (unrecoverable (code_error codespace code log), hash)
      else (succeeded, hash)

  -- A result that was found: done, an error, or not yet in a block.
  unfoldable pub poll : Bytes → PollReply → Option (Bytes × Option Error)
  poll tx_hash (query_error true) = some ([], some tendermint_error)
  poll tx_hash (query_error false) = none
  poll tx_hash (tx_result codespace code log height) =
      if not (code == 0)
      then elim (check_sequence sdk codespace code log) [
        | some e ↦ some ([], some e)
        | none ↦ elim (check_nonce sdk codespace code log) [
          | some e ↦ some ([], some e)
          | none ↦ some (tx_hash, some (non_zero_code code log))
        ]
      ]
      else if ltb_ℤ (pos 0) height
      then some (tx_hash, none)
      else none

  -- The `for` loop around the `select`; `none` means that it still waits after these events.
  unfoldable pub await_included : Bytes → List Tick → Option (Bytes × Option Error)
  await_included tx_hash [] = none
  await_included tx_hash (timed_out ∷ ts) = some (tx_hash, some await_timed_out)
  await_included tx_hash (polled r ∷ ts) =
      let rest = await_included tx_hash ts in
      elim (poll tx_hash r) [ some result ↦ some result | none ↦ rest ]

  -- What follows the retries: `if finalError != nil`, the hash, and the wait for the block.
  abbrev pub conclude :
      Bool → List Tick → Option (Option Error × Bytes) → Option (Bytes × Option Error)
  conclude await ticks none = none
  conclude await ticks (some (some e, tx_hash)) = some (tx_hash, some e)
  conclude await ticks (some (none, tx_hash)) =
      if not (is_hex tx_hash)
      then some ([], some bad_hash)
      else if not await
      then some (tx_hash, none)
      else await_included tx_hash ticks

  -- The hash and the error of `Broadcast`; `none` means that it has not returned yet.
  unfoldable pub broadcast :
      Retry → Bool → List SyncReply → List Tick → Option (Bytes × Option Error)
  broadcast retry await replies ticks =
      conclude await ticks (retry.until_succeeded attempt [] replies)
