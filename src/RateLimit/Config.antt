-- ===== src/RateLimit/Config.antt =====
-- pkg/ratelimit/config.go and errors.go.
use chain_stresser.Common.{
  ℕ, ◌*◌, ◌%◌, ◌^◌, Bool, not, ◌&&◌, ◌||◌, Option, none, some, ltb, ◌==◌, if◌then◌else◌,
}
use chain_stresser.Common.Int.{ℤ, pos, ltb_ℤ, to_int, max_int}
use chain_stresser.Common.Float.{Floats}

pub data Error : Type 0 where
  rate_must_be_positive burst_size_must_be_positive : Error
  at_least_one_rate_limit_required tx_per_second_must_be_positive : Error

pub record BurstConfig : Type 0 where
  pub size : ℤ

pub record Config (F : Type 0) : Type 0 where
  pub tx_per_second : F
  pub bytes_per_second : ℕ
  pub gas_per_second : ℕ
  pub burst : BurstConfig

abbrev pub default_burst_multiplier : ℕ
default_burst_multiplier = 1

module _ (fl : Floats) where
  open fl use {Float, zero_f, of_u64, ltb_f, eqb_f, mul_f, ceil_int}

  unfoldable pub is_enabled : Config Float → Bool
  is_enabled c = ltb_f zero_f c.tx_per_second || ltb 0 c.bytes_per_second || ltb 0 c.gas_per_second

  unfoldable pub validate : Config Float → Option Error
  unfolding is_enabled
  validate c =
      if not (is_enabled c)
      then none
      else if eqb_f c.tx_per_second zero_f && c.bytes_per_second == 0 && c.gas_per_second == 0
      then some at_least_one_rate_limit_required
      else if ltb_f c.tx_per_second zero_f
      then some tx_per_second_must_be_positive
      else none

  unfoldable pub has_tx_limit : Config Float → Bool
  unfolding is_enabled
  has_tx_limit c = is_enabled c && ltb_f zero_f c.tx_per_second

  unfoldable pub has_bytes_limit : Config Float → Bool
  unfolding is_enabled
  has_bytes_limit c = is_enabled c && ltb 0 c.bytes_per_second

  unfoldable pub has_gas_limit : Config Float → Bool
  unfolding is_enabled
  has_gas_limit c = is_enabled c && ltb 0 c.gas_per_second

  unfoldable pub get_bytes_rate : Config Float → Float
  get_bytes_rate c = of_u64 c.bytes_per_second

  unfoldable pub get_gas_rate : Config Float → Float
  get_gas_rate c = of_u64 c.gas_per_second

  unfoldable pub get_tps_burst_size : Config Float → ℤ
  get_tps_burst_size c =
      if ltb_ℤ (pos 0) c.burst.size
      then c.burst.size
      else let v = ceil_int (mul_f c.tx_per_second (of_u64 default_burst_multiplier)) in
        if ltb_ℤ v (pos 1) then pos 1 else v

-- The saturating cast of a rate, the common tail of the next two.
abbrev saturate : ℕ → ℤ
saturate b = if b == 0 then pos 1 else if ltb max_int b then pos max_int else to_int b

unfoldable pub get_bytes_burst_size : {F : Type 0} → Config F → ℤ
get_bytes_burst_size c =
    if ltb_ℤ (pos 0) c.burst.size
    then c.burst.size
    else saturate (c.bytes_per_second * default_burst_multiplier % 2 ^ 64)

unfoldable pub get_gas_burst_size : {F : Type 0} → Config F → ℤ
get_gas_burst_size c =
    if ltb_ℤ (pos 0) c.burst.size
    then c.burst.size
    else saturate (c.gas_per_second * default_burst_multiplier % 2 ^ 64)
