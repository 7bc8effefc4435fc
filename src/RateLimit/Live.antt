-- ===== src/RateLimit/Live.antt =====
-- pkg/ratelimit/bucket.go: `NewMultiLimiter`, and `WaitForTransaction` on the limiters it builds, under a
-- context that is live.
use chain_stresser.Common.{
  ℕ, ◌≤◌, ◌<◌, ◌≡◌, refl, ◌∙◌, Bool, true, false, Option, none, some, List, [], ◌∷◌, arith, Result,
  ok, ltb, All, Bool-cases, inl, inr, ltb→lt, is_some,
}
use chain_stresser.Common.Int.{ℤ, pos, u64_mod, max_int, ◌≤ℤ◌}
use chain_stresser.Common.Float.{Floats}
use chain_stresser.RateLimit.Config.{
  Config, get_tps_burst_size, get_bytes_burst_size, get_gas_burst_size, get_bytes_rate,
  get_gas_rate,
}
use chain_stresser.RateLimit.Bounds.{burst_sizes_bounds}
use chain_stresser.RateLimit.Limiter.{WaitError, TokenBucket, BucketLaws, make, wait}
use chain_stresser.RateLimit.Multi.{
  Metric, tps, bytes, gas, Fault, TxMetrics, after_wait, wait_chunks, optional, new_multi_limiter,
  on_tps, on_bytes, on_gas, tps_stage, bytes_stage, gas_stage, wait_for_transaction,
}
use chain_stresser.RateLimit.Chunks.{wait_all, wait_chunks-wait_all}
use chain_stresser.RateLimit.Waits.{burst_ℕ, State, wait_for_transaction-Keeps}

module _ (fl : Floats) (tb : TokenBucket fl.Float) (laws : BucketLaws tb) where
  open fl use {Float}
  open tb use {Limiter, Ctx}
  open laws use {burst, IsLive, burst-new_limiter, burst-wait_n, wait_n_live}

  abbrev HasBurst : ℤ → Option Limiter → Type 0
  HasBurst b none = Unit
  HasBurst b (some l) = burst l ≡ b

  abbrev HasToken : Option Limiter → Type 0
  HasToken none = Unit
  HasToken (some l) = pos 1 ≤ℤ burst l

  -- Every limiter has the burst that the loops cut their chunks by.
  pub record IsConfigured (s : State fl tb) : Type 0 where
    pub tps_burst : HasToken s.tps_limiter
    pub bytes_burst : HasBurst (get_bytes_burst_size s.config) s.bytes_limiter
    pub gas_burst : HasBurst (get_gas_burst_size s.config) s.gas_limiter
    pub in_range : s.config.burst.size ≤ℤ pos max_int

  abbrev Passed : Result Fault (Unit {0}) → Type 0
  Passed r = r ≡ ok tt

  wait_live :
      (ctx : Ctx) (l : Limiter) (n : ℤ)
      → IsLive ctx
      → n ≤ℤ burst l
      → ((wait fl tb ctx l n).0 ≡ none) × (burst (wait fl tb ctx l n).1 ≡ burst l)
  unfolding wait
  wait_live ctx l n live h = ground (arith, wait_n_live ctx l n live h, burst-wait_n ctx l n)

  after_wait_live :
      (m : Metric) (w : Option WaitError × Limiter)
      (next : Limiter → Result Fault (Unit {0}) × Limiter)
      → w.0 ≡ none
      → after_wait m w next ≡ next w.1
  after_wait_live m (none, l) next h = refl
  after_wait_live m (some e, l) next h = cc

  wait_all_live :
      (m : Metric) (ctx : Ctx) (b : ℕ) (ns : List ℕ) (l : Limiter)
      → IsLive ctx
      → burst l ≡ pos b
      → All (λ n. (1 ≤ n) × (n ≤ b)) ns
      → Passed (wait_all fl tb m ctx ns l).0 × (burst (wait_all fl tb m ctx ns l).1 ≡ pos b)
  unfolding wait_all
  wait_all_live m ctx b [] l live hb h = (refl, hb)
  wait_all_live m ctx b (n ∷ ns) l live hb ((lo, hi), h) =
      let (free, same) = wait_live ctx l (pos n) live (rw hb (omega arith)) in
      rw (after_wait_live m (wait fl tb ctx l (pos n)) (wait_all fl tb m ctx ns) free)
        (wait_all_live m ctx b ns (wait fl tb ctx l (pos n)).1 live (same ∙ hb) h)

  chunk_loop_live :
      (m : Metric) (ctx : Ctx) (b : ℤ) (size : ℕ) (l : Limiter)
      → IsLive ctx
      → pos 1 ≤ℤ b
      → b ≤ℤ pos max_int
      → size < u64_mod
      → burst l ≡ b
      → Passed (wait_chunks fl tb size m ctx b size l).0
        × (burst (wait_chunks fl tb size m ctx b size l).1 ≡ b)
  chunk_loop_live m ctx b size l live lo hi hs hb =
      let (n, e, pos_n, fits) = burst_ℕ b lo hi in
      let (ns, _, bounds, eq) = wait_chunks-wait_all fl tb m ctx n size l pos_n fits hs in
      rw (e, eq) (wait_all_live m ctx n ns l live (hb ∙ e) bounds)

  tps-live :
      (o : Option Limiter) (ctx : Ctx) (s : State fl tb)
      → IsLive ctx
      → HasToken o
      → IsConfigured s
      → IsConfigured (on_tps fl tb o ctx s).1 × Passed (on_tps fl tb o ctx s).0
  tps-live none ctx s live hb h = (h, refl)
  tps-live (some l) ctx s live hb h =
      let (free, same) = wait_live ctx l (pos 1) live hb in
      rw (after_wait_live tps (wait fl tb ctx l (pos 1)) (λ x. (ok tt, x)) free) (
        record {
          tps_burst = rw same hb;
          bytes_burst = h.bytes_burst;
          gas_burst = h.gas_burst;
          in_range = h.in_range;
        },
        refl,
      )

  bytes-live :
      (o : Option Limiter) (ctx : Ctx) (tx : TxMetrics) (s : State fl tb)
      → IsLive ctx
      → tx.size_bytes < u64_mod
      → HasBurst (get_bytes_burst_size s.config) o
      → IsConfigured s
      → IsConfigured (on_bytes fl tb o ctx tx s).1 × Passed (on_bytes fl tb o ctx tx s).0
  bytes-live none ctx tx s live ht hb h = (h, refl)
  bytes-live (some l) ctx tx s live ht hb h =
      let (_, lo, hi, _, _) = burst_sizes_bounds fl s.config h.in_range in
      let (passed, same) = chunk_loop_live bytes ctx _ tx.size_bytes l live lo hi ht hb in
      elim (Bool-cases (ltb 0 tx.size_bytes)) [
        | inl e ↦ rw e (
          record {
            tps_burst = h.tps_burst;
            bytes_burst = same;
            gas_burst = h.gas_burst;
            in_range = h.in_range;
          },
          passed,
        )
        | inr e ↦ rw e (h, refl)
      ]

  gas-live :
      (o : Option Limiter) (ctx : Ctx) (tx : TxMetrics) (s : State fl tb)
      → IsLive ctx
      → tx.gas_limit < u64_mod
      → HasBurst (get_gas_burst_size s.config) o
      → IsConfigured s
      → IsConfigured (on_gas fl tb o ctx tx s).1 × Passed (on_gas fl tb o ctx tx s).0
  gas-live none ctx tx s live ht hb h = (h, refl)
  gas-live (some l) ctx tx s live ht hb h =
      let (_, _, _, lo, hi) = burst_sizes_bounds fl s.config h.in_range in
      let (passed, same) = chunk_loop_live gas ctx _ tx.gas_limit l live lo hi ht hb in
      elim (Bool-cases (ltb 0 tx.gas_limit)) [
        | inl e ↦ rw e (
          record {
            tps_burst = h.tps_burst;
            bytes_burst = h.bytes_burst;
            gas_burst = same;
            in_range = h.in_range;
          },
          passed,
        )
        | inr e ↦ rw e (h, refl)
      ]

  -- Under a live context a transaction passes every limit, whatever its size and gas are, and the
  -- limiter stays ready for the next one.
  pub wait_for_transaction_live :
      (ctx : Ctx) (tx : TxMetrics) (s : State fl tb)
      → IsLive ctx
      → tx.size_bytes < u64_mod
      → tx.gas_limit < u64_mod
      → IsConfigured s
      → IsConfigured (wait_for_transaction fl tb ctx tx s).1
        × ((wait_for_transaction fl tb ctx tx s).0 ≡ ok tt)
  wait_for_transaction_live ctx tx s live hs hg h =
      wait_for_transaction-Keeps fl tb IsConfigured Passed ctx tx
        (λ s' h'. unfold tps_stage in tps-live s'.tps_limiter ctx s' live h'.tps_burst h')
        (λ s' h'.
          unfold bytes_stage in bytes-live s'.bytes_limiter ctx tx s' live hs h'.bytes_burst h')
        (λ s' h'. unfold gas_stage in gas-live s'.gas_limiter ctx tx s' live hg h'.gas_burst h') s h

  make-ok :
      (r : Float) (b : ℤ)
      → fl.ltb_f fl.zero_f r ≡ true
      → pos 1 ≤ℤ b
      → make fl tb r b ≡ ok (tb.new_limiter r b)
  unfolding make
  make-ok r b hr hb = ground (arith, fl.leb_f-of_gt fl.zero_f r hr)

  optional-ok :
      (test : Bool) (r : Float) (b : ℤ)
      → (test ≡ true → fl.ltb_f fl.zero_f r ≡ true)
      → pos 1 ≤ℤ b
      → (o : Option Limiter) × (optional fl tb test (make fl tb r b) ≡ ok o)
        × HasBurst b o
        × HasToken o
        × (is_some o ≡ test)
  optional-ok true r b hr hb = (
    some (tb.new_limiter r b),
    rw (make-ok r b (hr refl) hb),
    burst-new_limiter r b,
    rw (burst-new_limiter r b) hb,
    refl,
  )
  optional-ok false r b hr hb = (none, refl, tt, tt, refl)

  -- `NewMultiLimiter` succeeds on every configuration whose burst is an `int`. It makes a limiter
  -- for exactly the rates that are above 0, each with the burst that the loops use.
  pub new_multi_limiter-IsConfigured :
      (c : Config Float)
      → c.burst.size ≤ℤ pos max_int
      → (s : State fl tb) × (new_multi_limiter fl tb c ≡ ok s)
        × IsConfigured s
        × (s.config ≡ c)
        × (is_some s.tps_limiter ≡ fl.ltb_f fl.zero_f c.tx_per_second)
        × (is_some s.bytes_limiter ≡ ltb 0 c.bytes_per_second)
        × (is_some s.gas_limiter ≡ ltb 0 c.gas_per_second)
  unfolding new_multi_limiter get_bytes_rate get_gas_rate
  new_multi_limiter-IsConfigured c h =
      let (lo_t, lo_b, _, lo_g, _) = burst_sizes_bounds fl c h in
      let (t, et, _, tok, st) =
        optional-ok (fl.ltb_f fl.zero_f c.tx_per_second) c.tx_per_second (get_tps_burst_size fl c)
          (λ e. e) lo_t in
      let (b, eb, hb, _, sb) =
        optional-ok (ltb 0 c.bytes_per_second) (fl.of_u64 c.bytes_per_second)
          (get_bytes_burst_size c) (λ e. fl.of_u64_pos _ (ltb→lt _ _ e)) lo_b in
      let (g, eg, hg, _, sg) =
        optional-ok (ltb 0 c.gas_per_second) (fl.of_u64 c.gas_per_second) (get_gas_burst_size c)
          (λ e. fl.of_u64_pos _ (ltb→lt _ _ e)) lo_g in
      (
        record { tps_limiter = t; bytes_limiter = b; gas_limiter = g; config = c },
        rw (et, eb, eg),
        record { tps_burst = tok; bytes_burst = hb; gas_burst = hg; in_range = h },
        refl,
        st,
        sb,
        sg,
      )
