-- ===== src/RateLimit/Multi.antt =====
-- pkg/ratelimit/bucket.go, the `MultiLimiter`, and gas.go. A method takes the limiter's state and
-- returns the new one beside its result; the loops over chunks run on fuel.
use chain_stresser.Common.{
  ℕ, zero, suc, Bool, true, false, Option, none, some, Result, ok, err, ◌>>=◌, ltb, if◌then◌else◌,
  length,
}
use chain_stresser.Common.Bytes.{Bytes}
use chain_stresser.Common.Int.{ℤ, pos, to_u64, to_int, sub_u64}
use chain_stresser.Common.Float.{Floats}
use chain_stresser.RateLimit.Config.{
  Error, Config, get_tps_burst_size, get_bytes_rate, get_gas_rate, get_bytes_burst_size,
  get_gas_burst_size,
}
use chain_stresser.RateLimit.Limiter.{
  WaitError, canceled, deadline_exceeded, refused, TokenBucket, make, wait,
}

pub record TxMetrics : Type 0 where
  pub size_bytes : ℕ
  pub gas_limit : ℕ

pub record MultiLimiter (F L : Type 0) : Type 0 where
  pub tps_limiter : Option L
  pub bytes_limiter : Option L
  pub gas_limiter : Option L
  pub config : Config F

pub data Metric : Type 0 where
  tps bytes gas : Metric

-- The context's error as it is, or one of the sentinels (`ErrTPSRateLimitExceeded`, …) around the
-- error of the bucket. `out_of_fuel` is the model's own: the loop ran out of fuel.
pub data Fault : Type 0 where
  context_done : WaitError → Fault
  limit_exceeded : Metric → WaitError → Fault
  out_of_fuel : Fault

abbrev wrap : Metric → WaitError → Fault
wrap m canceled = context_done canceled
wrap m deadline_exceeded = context_done deadline_exceeded
wrap m refused = limit_exceeded m refused

-- One round of a chunk loop: `n := chunk; if remaining < uint64(chunk) { n = int(remaining) }`.
abbrev pub next_chunk : ℤ → ℕ → ℤ
next_chunk chunk remaining = if ltb remaining (to_u64 chunk) then to_int remaining else chunk

-- `if err := limiter.Wait(ctx, n); err != nil { return … }`, and what follows it.
abbrev pub after_wait :
    {L : Type 0}
    → Metric
    → Option WaitError × L
    → (L → Result Fault (Unit {0}) × L)
    → Result Fault (Unit {0}) × L
after_wait m (none, l) next = next l
after_wait m (some e, l) next = (err (wrap m e), l)

-- The transaction decoder of the Cosmos SDK is a parameter: `none` is a failed decoding, and the
-- inner `none` a transaction that is no `FeeTx`. A `nil` configuration has no decoder.
abbrev pub Decoder : Type 0
Decoder = Bytes → Option (Option ℕ)

abbrev pub fee_gas : Option (Option ℕ) → Option ℕ
fee_gas none = none
fee_gas (some none) = some 0
fee_gas (some (some g)) = some g

unfoldable pub extract_gas_limit : Option Decoder → Bytes → Option ℕ
extract_gas_limit none tx_bytes = some 0
extract_gas_limit (some decode) tx_bytes = fee_gas (decode tx_bytes)

-- `if err != nil { gasLimit = 0 }`
abbrev pub gas_or_zero : Option ℕ → ℕ
gas_or_zero none = 0
gas_or_zero (some g) = g

module _ (fl : Floats) (tb : TokenBucket fl.Float) where
  open fl use {Float, zero_f, ltb_f}
  open tb use {Limiter, Ctx}

  abbrev pub optional : Bool → Result Error Limiter → Result Error (Option Limiter)
  optional true (ok l) = ok (some l)
  optional true (err e) = err e
  optional false r = ok none

  unfoldable pub new_multi_limiter : Config Float → Result Error (MultiLimiter Float Limiter)
  new_multi_limiter c = do
    t ←
        optional (ltb_f zero_f c.tx_per_second)
          (make fl tb c.tx_per_second (get_tps_burst_size fl c))
    b ←
        optional (ltb 0 c.bytes_per_second)
          (make fl tb (get_bytes_rate fl c) (get_bytes_burst_size c))
    g ← optional (ltb 0 c.gas_per_second) (make fl tb (get_gas_rate fl c) (get_gas_burst_size c))
    ok (record { tps_limiter = t; bytes_limiter = b; gas_limiter = g; config = c })

  -- A stage waits on one of the limiters and stores its new state.
  abbrev pub Wait : Type 0
  Wait = MultiLimiter Float Limiter → Result Fault (Unit {0}) × MultiLimiter Float Limiter

  abbrev pub then_wait : Wait → Wait → Wait
  then_wait m k s = let (r, s') = m s in elim r [ ok _ ↦ k s' | err e ↦ (err e, s') ]

  -- `for remaining > 0 { … }`.
  unfoldable pub wait_chunks :
      ℕ → Metric → Ctx → ℤ → ℕ → Limiter → Result Fault (Unit {0}) × Limiter
  wait_chunks zero m ctx chunk remaining l =
      if ltb 0 remaining then (err out_of_fuel, l) else (ok tt, l)
  wait_chunks (suc fuel) m ctx chunk remaining l =
      let n = next_chunk chunk remaining in
      let next = wait_chunks fuel m ctx chunk (sub_u64 remaining (to_u64 n)) in
      if ltb 0 remaining then after_wait m (wait fl tb ctx l n) next else (ok tt, l)

  -- `if ml.tpsLimiter != nil { … }`, at the limiter's pointer.
  abbrev pub on_tps : Option Limiter → Ctx → Wait
  on_tps none ctx s = (ok tt, s)
  on_tps (some l) ctx s =
      let (r, l') = after_wait tps (wait fl tb ctx l (pos 1)) (λ x. (ok tt, x)) in
      (r, record s { tps_limiter = some l' })

  unfoldable pub tps_stage : Ctx → Wait
  tps_stage ctx s = on_tps s.tps_limiter ctx s

  abbrev pub on_bytes : Option Limiter → Ctx → TxMetrics → Wait
  on_bytes none ctx tx s = (ok tt, s)
  on_bytes (some l) ctx tx s =
      let (r, l') =
        wait_chunks tx.size_bytes bytes ctx (get_bytes_burst_size s.config) tx.size_bytes l in
      if ltb 0 tx.size_bytes then (r, record s { bytes_limiter = some l' }) else (ok tt, s)

  unfoldable pub bytes_stage : Ctx → TxMetrics → Wait
  bytes_stage ctx tx s = on_bytes s.bytes_limiter ctx tx s

  abbrev pub on_gas : Option Limiter → Ctx → TxMetrics → Wait
  on_gas none ctx tx s = (ok tt, s)
  on_gas (some l) ctx tx s =
      let (r, l') = wait_chunks tx.gas_limit gas ctx (get_gas_burst_size s.config) tx.gas_limit l in
      if ltb 0 tx.gas_limit then (r, record s { gas_limiter = some l' }) else (ok tt, s)

  unfoldable pub gas_stage : Ctx → TxMetrics → Wait
  gas_stage ctx tx s = on_gas s.gas_limiter ctx tx s

  unfoldable pub wait_for_transaction : Ctx → TxMetrics → Wait
  wait_for_transaction ctx tx =
      then_wait (tps_stage ctx) (then_wait (bytes_stage ctx tx) (gas_stage ctx tx))

  unfoldable pub wait_for_transaction_bytes : Option Decoder → Ctx → Bytes → Wait
  wait_for_transaction_bytes decoder ctx tx_bytes = wait_for_transaction ctx (record {
    size_bytes = length tx_bytes;
    gas_limit = gas_or_zero (extract_gas_limit decoder tx_bytes);
  })
