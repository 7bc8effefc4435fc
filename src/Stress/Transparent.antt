-- ===== src/Stress/Transparent.antt =====
-- stresser.go, `buildBroadcastClient`: what the rate limiter changes of a broadcast.
use chain_stresser.Common.{
  ℕ, ◌<◌, ◌≡◌, refl, Option, none, some, Result, is_some, Bool-cases, inl, inr,
}
use chain_stresser.Common.Bytes.{Bytes}
use chain_stresser.Common.Int.{pos, max_int, u64_mod, ◌≤ℤ◌}
use chain_stresser.Common.Float.{Floats}
use chain_stresser.RateLimit.Config.{Config, is_enabled}
use chain_stresser.RateLimit.Limiter.{TokenBucket, BucketLaws}
use chain_stresser.RateLimit.Multi.{Decoder, MultiLimiter}
use chain_stresser.RateLimit.Live.{IsConfigured, new_multi_limiter-IsConfigured}
use chain_stresser.Chain.Sequence.{Error}
use chain_stresser.Stress.Client.{Shared, BroadcastError, client_result, build_broadcast_client}

-- A decoder that returns `uint64` gas limits.
abbrev pub IsU64 : Option Decoder → Type 0
IsU64 none = Unit
IsU64 (some decode) = (tx : Bytes) (g : ℕ) → decode tx ≡ some (some g) → g < u64_mod

module _ (fl : Floats) (tb : TokenBucket fl.Float) (laws : BucketLaws tb) (decoder : Option Decoder)
    {N : Type 0} (base : N → Bytes → Result Error Bytes × N) where
  open fl use {Float}
  open tb use {Limiter, Ctx}

  abbrev pub IsReady : Option (MultiLimiter Float Limiter) → Type 0
  IsReady none = Unit
  IsReady (some l) = IsConfigured fl tb laws l

  -- The outcome of a broadcast is the base client's, and the limiter is ready for the next one.
  abbrev pub IsPassedOn : N → Bytes → Result BroadcastError Bytes × Shared Float Limiter N → Type 0
  IsPassedOn n tx out =
      (out.0 ≡ client_result (base n tx).0)
      × (out.1.node ≡ (base n tx).1)
      × IsReady out.1.rate_limiter

  -- `buildBroadcastClient` succeeds on every configuration whose burst is an `int`; the client has a
  -- rate limiter exactly when a limit is enabled, and that limiter is ready.
  pub build_broadcast_client-IsReady :
      (c : Config Float) (n : N)
      → c.burst.size ≤ℤ pos max_int
      → (s : Shared Float Limiter N) × (build_broadcast_client fl tb decoder base c n ≡ some s)
        × (is_some s.rate_limiter ≡ is_enabled fl c)
        × IsReady s.rate_limiter
        × (s.node ≡ n)
  unfolding build_broadcast_client
  build_broadcast_client-IsReady c n h =
      let (l, built, ready, _, _, _, _) = new_multi_limiter-IsConfigured fl tb laws c h in
      elim (Bool-cases (is_enabled fl c)) [
        | inl on ↦ (record { rate_limiter = some l; node = n }, rw (on, built), rw on, ready, refl)
        | inr off ↦ (record { rate_limiter = none; node = n }, rw off, rw off, tt, refl)
      ]
