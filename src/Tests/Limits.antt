-- ===== src/Tests/Limits.antt =====
-- pkg/ratelimit at concrete configurations.
use chain_stresser.Common.{◌≡◌, ◌≢◌, refl, none, some, ok, err, arith, is_some, true, false}
use chain_stresser.Common.Int.{ℤ, pos, negsuc}
use chain_stresser.RateLimit.Config.{Config, get_bytes_burst_size}
use chain_stresser.RateLimit.Multi.{
  TxMetrics, MultiLimiter, out_of_fuel, wait_for_transaction, new_multi_limiter,
}
use chain_stresser.RateLimit.Waits.{wait_for_transaction_ends}
use chain_stresser.RateLimit.Live.{
  IsConfigured, wait_for_transaction_live, new_multi_limiter-IsConfigured,
}
use chain_stresser.Tests.Instances.{whole_floats, burst_bucket, burst_laws}

-- 5 transactions and 10 bytes per second, no gas limit, and no custom burst.
abbrev pub limits : Config ℤ
limits = record {
  tx_per_second = pos 5;
  bytes_per_second = 10;
  gas_per_second = 0;
  burst = record { size = pos 0 };
}

abbrev negative_rate : Config ℤ
negative_rate = record {
  tx_per_second = negsuc 0;
  bytes_per_second = 10;
  gas_per_second = 0;
  burst = record { size = pos 0 };
}

abbrev pub ready : MultiLimiter ℤ ℤ
ready = record {
  tps_limiter = some (pos 5);
  bytes_limiter = some (pos 10);
  gas_limiter = none;
  config = limits;
}

pub ready-IsConfigured : IsConfigured whole_floats burst_bucket burst_laws ready
unfolding get_bytes_burst_size
ready-IsConfigured = record {
  tps_burst = omega arith;
  bytes_burst = refl;
  gas_burst = tt;
  in_range = omega arith;
}

abbrev transaction : TxMetrics
transaction = record { size_bytes = 25; gas_limit = 100000 }

wait_for_transaction_ends_example :
    (wait_for_transaction whole_floats burst_bucket false transaction ready).0 ≢ err out_of_fuel
wait_for_transaction_ends_example =
    wait_for_transaction_ends whole_floats burst_bucket false transaction ready (omega arith)
      (omega arith) (omega arith)

wait_for_transaction_live_example :
    IsConfigured whole_floats burst_bucket burst_laws
      (wait_for_transaction whole_floats burst_bucket true transaction ready).1
    × ((wait_for_transaction whole_floats burst_bucket true transaction ready).0 ≡ ok tt)
wait_for_transaction_live_example =
    wait_for_transaction_live whole_floats burst_bucket burst_laws true transaction ready refl
      (omega arith) (omega arith) ready-IsConfigured

new_multi_limiter-IsConfigured_example :
    (s : MultiLimiter ℤ ℤ) × (new_multi_limiter whole_floats burst_bucket limits ≡ ok s)
    × IsConfigured whole_floats burst_bucket burst_laws s
    × (s.config ≡ limits)
    × (is_some s.tps_limiter ≡ true)
    × (is_some s.bytes_limiter ≡ true)
    × (is_some s.gas_limiter ≡ false)
new_multi_limiter-IsConfigured_example =
    new_multi_limiter-IsConfigured whole_floats burst_bucket burst_laws limits (omega arith)
