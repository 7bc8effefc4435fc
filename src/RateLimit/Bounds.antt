-- ===== src/RateLimit/Bounds.antt =====
-- What holds of the configuration in pkg/ratelimit/config.go.
use chain_stresser.Common.{◌≡◌, ◌&&◌, ◌||◌, none, some, arith, ltb, if◌then◌else◌}
use chain_stresser.Common.Int.{pos, ◌≤ℤ◌, max_int}
use chain_stresser.Common.Float.{Floats}
use chain_stresser.RateLimit.Config.{
  tx_per_second_must_be_positive, Config, validate, get_tps_burst_size, get_bytes_burst_size,
  get_gas_burst_size,
}

module _ (fl : Floats) where
  open fl use {Float, zero_f, ltb_f, ltb_f-asymm, eqb_f-of_lt}

  -- `Validate` reports a negative rate exactly when the byte or the gas limit is on, and nothing else.
  pub validate-eq :
      (c : Config Float)
      → validate fl c ≡ (
          if ltb_f c.tx_per_second zero_f && (ltb 0 c.bytes_per_second || ltb 0 c.gas_per_second)
          then some tx_per_second_must_be_positive
          else none)
  unfolding validate
  validate-eq c = ground (
    arith,
    ltb_f-asymm zero_f c.tx_per_second,
    ltb_f-asymm c.tx_per_second zero_f,
    eqb_f-of_lt zero_f c.tx_per_second,
  )

  -- For every configuration whose custom burst is an `int`, the burst of the byte and of the gas
  -- limiter lies in [1, MaxInt], and that of the transaction limiter is at least 1.
  pub burst_sizes_bounds :
      (c : Config Float)
      → c.burst.size ≤ℤ pos max_int
      → (pos 1 ≤ℤ get_tps_burst_size fl c)
        × (pos 1 ≤ℤ get_bytes_burst_size c)
        × (get_bytes_burst_size c ≤ℤ pos max_int)
        × (pos 1 ≤ℤ get_gas_burst_size c)
        × (get_gas_burst_size c ≤ℤ pos max_int)
  unfolding get_tps_burst_size get_bytes_burst_size get_gas_burst_size
  burst_sizes_bounds c h = (ground arith, ground arith, ground arith, ground arith, ground arith)
