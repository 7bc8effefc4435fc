-- ===== src/Stress/Initial/Ends.antt =====
-- stresser.go, `createAndBroadcastInitialTxs`: `pool.StopWait` returns.
use chain_stresser.Common.{
  ℕ, ◌+◌, ◌-◌, ◌*◌, ◌<◌, ◌⊎◌, inl, inr, Bool, Option, none, some, Result, length, sum_by,
}
use chain_stresser.Stress.Initial.{Worker, Settled, Pool}

abbrev unsigned_weight : {S : Type 0} → Option S → ℕ
unsigned_weight none = 1
unsigned_weight (some s) = 0

module _ {T S : Type 0} where
  -- The calls that a worker can still make.
  abbrev weight : Worker T S → ℕ
  weight j = 2 * (5 - j.attempts) + unsigned_weight j.signed

  abbrev next_weight : Worker T S ⊎ Settled T → ℕ
  next_weight (inl k) = weight k
  next_weight (inr f) = 0

  -- A worker that is not done has an attempt left.
  abbrev IsTrying : Worker T S → Type 0
  IsTrying j = j.attempts < 5

  abbrev IsTryingNext : Worker T S ⊎ Settled T → Type 0
  IsTryingNext (inl k) = IsTrying k
  IsTryingNext (inr f) = Unit

  -- A call leaves less to do.
  abbrev IsLess : Worker T S → ℕ → Worker T S ⊎ Settled T → Type 0
  IsLess j n x = IsTryingNext x × (next_weight x < 2 * (5 - j.attempts) + n)

module _ {T S H E W : Type 0} (build_and_sign : W → T → Result E S × W)
    (broadcast : W → S → Result E H × W) (is_cancelled : W → Bool) where
  -- A transaction that waits has eleven calls before it, and one start.
  abbrev pool_weight : Pool T S → ℕ
  pool_weight p = 12 * length p.waiting + sum_by weight p.running
