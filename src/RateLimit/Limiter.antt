-- ===== src/RateLimit/Limiter.antt =====
-- pkg/ratelimit/bucket.go, the `limiter` type. The token bucket is golang.org/x/time/rate, which is
-- a parameter: its operations, and separately the documented behaviour that the theorems rely on.
use chain_stresser.Common.{◌≡◌, Bool, true, not, Option, none, Result, ok, err, if◌then◌else◌}
use chain_stresser.Common.Int.{ℤ, pos, ◌≤ℤ◌, ltb_ℤ}
use chain_stresser.Common.Float.{Floats}
use chain_stresser.RateLimit.Config.{Error, rate_must_be_positive, burst_size_must_be_positive}

-- The errors of `WaitN`: the context's two, and the bucket's own (a burst that is exceeded, or a
-- deadline that the wait would pass).
pub data WaitError : Type 0 where
  canceled deadline_exceeded refused : WaitError

-- golang.org/x/time/rate, and the contexts that it waits under.
pub record TokenBucket (F : Type 0) : Type 1 where
  pub Limiter : Type 0
  pub Ctx : Type 0
  pub Time : Type 0
  pub new_limiter : F → ℤ → Limiter
  pub wait_n : Ctx → Limiter → ℤ → Option WaitError × Limiter
  pub allow_n : Time → Limiter → ℤ → Bool × Limiter
  pub tokens_at : Time → Limiter → F
  pub set_limit : Limiter → F → Limiter

-- What its documentation says: the burst is the one given at construction, waiting does not change
-- it, and a wait for no more than the burst, under a context that is neither cancelled nor has a
-- deadline, returns no error.
pub record BucketLaws {F : Type 0} (tb : TokenBucket F) : Type 1 where
  pub burst : tb.Limiter → ℤ
  pub IsLive : tb.Ctx → Type 0
  pub burst-new_limiter : (r : F) (b : ℤ) → burst (tb.new_limiter r b) ≡ b
  pub burst-wait_n : (ctx : tb.Ctx) (l : tb.Limiter) (n : ℤ) → burst (tb.wait_n ctx l n).1 ≡ burst l
  pub wait_n_live :
      (ctx : tb.Ctx) (l : tb.Limiter) (n : ℤ)
      → IsLive ctx
      → n ≤ℤ burst l
      → (tb.wait_n ctx l n).0 ≡ none

module _ (fl : Floats) (tb : TokenBucket fl.Float) where
  open fl use {Float, zero_f, ltb_f}
  open tb use {Limiter, Ctx, Time, new_limiter, wait_n, allow_n, tokens_at, set_limit}

  -- `ratePerSecond <= 0` is false of a NaN, which is let through.
  unfoldable pub make : Float → ℤ → Result Error Limiter
  make rate burst_size =
      if fl.leb_f rate zero_f
      then err rate_must_be_positive
      else if not (ltb_ℤ (pos 0) burst_size)
      then err burst_size_must_be_positive
      else ok (new_limiter rate burst_size)

  unfoldable pub wait : Ctx → Limiter → ℤ → Option WaitError × Limiter
  wait ctx l tokens = if not (ltb_ℤ (pos 0) tokens) then (none, l) else wait_n ctx l tokens

  unfoldable pub try_consume : Time → Limiter → ℤ → Bool × Limiter
  try_consume now l tokens = if not (ltb_ℤ (pos 0) tokens) then (true, l) else allow_n now l tokens

  unfoldable pub tokens : Time → Limiter → Float
  tokens now l = tokens_at now l

  unfoldable pub set_rate : Limiter → Float → Result Error Limiter
  set_rate l rate =
      if fl.leb_f rate zero_f then err rate_must_be_positive else ok (set_limit l rate)
