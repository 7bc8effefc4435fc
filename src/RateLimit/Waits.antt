-- ===== src/RateLimit/Waits.antt =====
-- pkg/ratelimit/bucket.go: how `WaitForTransaction` ends, by its three stages.
use chain_stresser.Common.{
  ℕ, ◌≤◌, ◌<◌, ◌≡◌, ◌≢◌, refl, Option, none, some, List, [], ◌∷◌, arith, Result, ok, err, ltb,
  Bool-cases, inl, inr,
}
use chain_stresser.Common.Int.{ℤ, pos, negsuc, u64_mod, max_int, ◌≤ℤ◌}
use chain_stresser.Common.Float.{Floats}
use chain_stresser.RateLimit.Config.{get_bytes_burst_size, get_gas_burst_size}
use chain_stresser.RateLimit.Bounds.{burst_sizes_bounds}
use chain_stresser.RateLimit.Limiter.{WaitError, TokenBucket, wait}
use chain_stresser.RateLimit.Multi.{
  Metric, tps, bytes, gas, Fault, out_of_fuel, TxMetrics, MultiLimiter, after_wait, Wait, then_wait,
  wait_chunks, on_tps, on_bytes, on_gas, tps_stage, bytes_stage, gas_stage, wait_for_transaction,
}
use chain_stresser.RateLimit.Chunks.{wait_all, wait_chunks-wait_all}

-- A burst in range is a positive number.
pub burst_ℕ :
    (b : ℤ) → pos 1 ≤ℤ b → b ≤ℤ pos max_int → (n : ℕ) × (b ≡ pos n) × (0 < n) × (n ≤ max_int)
burst_ℕ (pos n) h k = (n, refl, omega arith, omega arith)
burst_ℕ (negsuc n) h k = absurd (omega arith)

module _ (fl : Floats) (tb : TokenBucket fl.Float) where
  open fl use {Float}
  open tb use {Limiter, Ctx}

  after_wait-ne-fuel :
      (m : Metric) (w : Option WaitError × Limiter)
      (next : Limiter → Result Fault (Unit {0}) × Limiter)
      → ((l : Limiter) → (next l).0 ≢ err out_of_fuel)
      → (after_wait m w next).0 ≢ err out_of_fuel
  after_wait-ne-fuel m (none, l) next h = h l
  after_wait-ne-fuel m (some e, l) next h = ground arith

  wait_all-ne-fuel :
      (m : Metric) (ctx : Ctx) (ns : List ℕ) (l : Limiter)
      → (wait_all fl tb m ctx ns l).0 ≢ err out_of_fuel
  unfolding wait_all
  wait_all-ne-fuel m ctx [] l = λ e. cc
  wait_all-ne-fuel m ctx (n ∷ ns) l =
      after_wait-ne-fuel m (wait fl tb ctx l (pos n)) (wait_all fl tb m ctx ns)
        (wait_all-ne-fuel m ctx ns)

  -- the chunk loop, at a burst that is in range
  chunk_loop-ne-fuel :
      (m : Metric) (ctx : Ctx) (b : ℤ) (size : ℕ) (l : Limiter)
      → pos 1 ≤ℤ b
      → b ≤ℤ pos max_int
      → size < u64_mod
      → (wait_chunks fl tb size m ctx b size l).0 ≢ err out_of_fuel
  chunk_loop-ne-fuel m ctx b size l lo hi hs =
      let (n, e, pos_n, fits) = burst_ℕ b lo hi in
      let (ns, _, _, eq) = wait_chunks-wait_all fl tb m ctx n size l pos_n fits hs in
      rw (e, eq) (wait_all-ne-fuel m ctx ns l)

  abbrev pub State : Type 0
  State = MultiLimiter Float Limiter

  -- A stage keeps `P` of the limiter, and its outcome satisfies `Q`.
  abbrev pub Keeps : (State → Type 0) → (Result Fault (Unit {0}) → Type 0) → Wait fl tb → Type 0
  Keeps P Q m = (s : State) → P s → P (m s).1 × Q (m s).0

  Keeps-then_wait :
      (P : State → Type 0) (Q : Result Fault (Unit {0}) → Type 0) (m k : Wait fl tb)
      → Keeps P Q m
      → Keeps P Q k
      → Keeps P Q (then_wait fl tb m k)
  Keeps-then_wait P Q m k hm hk s h = go (m s).0 (m s).1 (hm s h).0 (hm s h).1
    where
      go :
          (r : Result Fault (Unit {0})) (s' : State)
          → P s'
          → Q r
          → P
              (elim r as (λ _. Result Fault (Unit {0}) × State) [
                | ok _ ↦ k s'
                | err e ↦ (err e, s')
              ]).1
            × Q
                (elim r as (λ _. Result Fault (Unit {0}) × State) [
                  | ok _ ↦ k s'
                  | err e ↦ (err e, s')
                ]).0
      go (ok _) s' p q = hk s' p
      go (err e) s' p q = (p, q)

  abbrev HasRange : State → Type 0
  HasRange s = s.config.burst.size ≤ℤ pos max_int

  abbrev Ended : Result Fault (Unit {0}) → Type 0
  Ended r = r ≢ err out_of_fuel

  tps-Ended : (o : Option Limiter) (ctx : Ctx) → Keeps HasRange Ended (on_tps fl tb o ctx)
  tps-Ended none ctx s h = (h, λ e. cc)
  tps-Ended (some l) ctx s h =
      (h, after_wait-ne-fuel tps (wait fl tb ctx l (pos 1)) (λ x. (ok tt, x)) (λ x e. cc))

  bytes-Ended :
      (o : Option Limiter) (ctx : Ctx) (tx : TxMetrics)
      → tx.size_bytes < u64_mod
      → Keeps HasRange Ended (on_bytes fl tb o ctx tx)
  bytes-Ended none ctx tx ht s h = (h, λ e. cc)
  bytes-Ended (some l) ctx tx ht s h =
      let (_, lo, hi, _, _) = burst_sizes_bounds fl s.config h in
      let ended =
        chunk_loop-ne-fuel bytes ctx (get_bytes_burst_size s.config) tx.size_bytes l lo hi ht in
      elim (Bool-cases (ltb 0 tx.size_bytes)) [
        | inl e ↦ rw e (h, ended)
        | inr e ↦ rw e (h, λ x. cc)
      ]

  gas-Ended :
      (o : Option Limiter) (ctx : Ctx) (tx : TxMetrics)
      → tx.gas_limit < u64_mod
      → Keeps HasRange Ended (on_gas fl tb o ctx tx)
  gas-Ended none ctx tx ht s h = (h, λ e. cc)
  gas-Ended (some l) ctx tx ht s h =
      let (_, _, _, lo, hi) = burst_sizes_bounds fl s.config h in
      let ended =
        chunk_loop-ne-fuel gas ctx (get_gas_burst_size s.config) tx.gas_limit l lo hi ht in
      elim (Bool-cases (ltb 0 tx.gas_limit)) [ inl e ↦ rw e (h, ended) | inr e ↦ rw e (h, λ x. cc) ]

  pub wait_for_transaction-Keeps :
      (P : State → Type 0) (Q : Result Fault (Unit {0}) → Type 0) (ctx : Ctx) (tx : TxMetrics)
      → Keeps P Q (tps_stage fl tb ctx)
      → Keeps P Q (bytes_stage fl tb ctx tx)
      → Keeps P Q (gas_stage fl tb ctx tx)
      → Keeps P Q (wait_for_transaction fl tb ctx tx)
  unfolding wait_for_transaction
  wait_for_transaction-Keeps P Q ctx tx ht hb hg =
      Keeps-then_wait P Q (tps_stage fl tb ctx)
        (then_wait fl tb (bytes_stage fl tb ctx tx) (gas_stage fl tb ctx tx)) ht
        (Keeps-then_wait P Q (bytes_stage fl tb ctx tx) (gas_stage fl tb ctx tx) hb hg)

  tps_stage-Ended : (ctx : Ctx) → Keeps HasRange Ended (tps_stage fl tb ctx)
  unfolding tps_stage
  tps_stage-Ended ctx s = tps-Ended s.tps_limiter ctx s

  bytes_stage-Ended :
      (ctx : Ctx) (tx : TxMetrics)
      → tx.size_bytes < u64_mod
      → Keeps HasRange Ended (bytes_stage fl tb ctx tx)
  unfolding bytes_stage
  bytes_stage-Ended ctx tx h s = bytes-Ended s.bytes_limiter ctx tx h s

  gas_stage-Ended :
      (ctx : Ctx) (tx : TxMetrics)
      → tx.gas_limit < u64_mod
      → Keeps HasRange Ended (gas_stage fl tb ctx tx)
  unfolding gas_stage
  gas_stage-Ended ctx tx h s = gas-Ended s.gas_limiter ctx tx h s

  -- Whatever the limiters and the context do, waiting for a transaction comes to an end: the loops
  -- never use up their fuel, if the custom burst is an `int` and the two metrics are `uint64`.
  pub wait_for_transaction_ends :
      (ctx : Ctx) (tx : TxMetrics) (s : State)
      → s.config.burst.size ≤ℤ pos max_int
      → tx.size_bytes < u64_mod
      → tx.gas_limit < u64_mod
      → (wait_for_transaction fl tb ctx tx s).0 ≢ err out_of_fuel
  wait_for_transaction_ends ctx tx s h hs hg =
      (wait_for_transaction-Keeps HasRange Ended ctx tx (tps_stage-Ended ctx)
        (bytes_stage-Ended ctx tx hs) (gas_stage-Ended ctx tx hg) s h).1
