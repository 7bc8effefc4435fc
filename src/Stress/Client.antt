-- ===== src/Stress/Client.antt =====
-- stresser.go: `buildBroadcastClient`, the broadcast behind the optional rate limiter.
use chain_stresser.Common.{ℕ, Option, none, some, Result, ok, err, if◌then◌else◌}
use chain_stresser.Common.Bytes.{Bytes}
use chain_stresser.Common.Float.{Floats}
use chain_stresser.RateLimit.Config.{Config, is_enabled}
use chain_stresser.RateLimit.Limiter.{TokenBucket}
use chain_stresser.RateLimit.Multi.{
  Decoder, Fault, MultiLimiter, new_multi_limiter, wait_for_transaction_bytes,
}
use chain_stresser.Chain.Sequence.{Error, is_sequence_error}

-- The errors of the broadcast function: "rate limit wait failed", or the client's own.
pub data BroadcastError : Type 0 where
  rate_limit_wait_failed : Fault → BroadcastError
  client_error : Error → BroadcastError

-- `chain.IsSequenceError` of such an error: no error of the limiter wraps a `sequenceError`.
unfoldable pub expected_sequence : BroadcastError → Option ℕ
unfolding is_sequence_error
expected_sequence (rate_limit_wait_failed f) = none
expected_sequence (client_error e) = is_sequence_error e

-- The state behind the closure that `buildBroadcastClient` returns: the rate limiter, if there is
-- one, and the node that the base client talks to.
pub record Shared (F L N : Type 0) : Type 0 where
  pub rate_limiter : Option (MultiLimiter F L)
  pub node : N

abbrev pub client_result : Result Error Bytes → Result BroadcastError Bytes
client_result (ok h) = ok h
client_result (err e) = err (client_error e)

module _ (fl : Floats) (tb : TokenBucket fl.Float) (decoder : Option Decoder) {N : Type 0}
    (base : N → Bytes → Result Error Bytes × N) where
  open fl use {Float}
  open tb use {Limiter, Ctx}

  -- `none` stands for "failed to create rate limiter".
  unfoldable pub build_broadcast_client : Config Float → N → Option (Shared Float Limiter N)
  build_broadcast_client c n =
      if is_enabled fl c
      then elim (new_multi_limiter fl tb c) [
        | err e ↦ none
        | ok l ↦ some (record { rate_limiter = some l; node = n })
      ]
      else some (record { rate_limiter = none; node = n })

  -- The closure's body behind the limiter: the base client's `Broadcast`.
  abbrev pub send :
      Option (MultiLimiter Float Limiter)
      → N
      → Bytes
      → Result BroadcastError Bytes × Shared Float Limiter N
  send l n tx = let (r, n') = base n tx in (client_result r, record { rate_limiter = l; node = n' })

  abbrev pub limited :
      N
      → Bytes
      → Result Fault (Unit {0}) × MultiLimiter Float Limiter
      → Result BroadcastError Bytes × Shared Float Limiter N
  limited n tx (ok _, l) = send (some l) n tx
  limited n tx (err f, l) =
      (err (rate_limit_wait_failed f), record { rate_limiter = some l; node = n })

  unfoldable pub broadcast_client :
      Ctx → Shared Float Limiter N → Bytes → Result BroadcastError Bytes × Shared Float Limiter N
  broadcast_client ctx s tx = elim s.rate_limiter [
    | none ↦ send none s.node tx
    | some l ↦ limited s.node tx (wait_for_transaction_bytes fl tb decoder ctx tx l)
  ]
