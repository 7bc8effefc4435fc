-- ===== src/RateLimit/Chunks.antt =====
-- The chunk loops of `WaitForTransaction` (pkg/ratelimit/bucket.go).
use chain_stresser.Common.{
  ℕ, zero, suc, ◌-◌, ◌≤◌, ◌<◌, ◌≡◌, refl, ap, ◌∙◌, true, false, List, [], ◌∷◌, arith, Result, ok,
  leb, if◌then◌else◌, sum, All, Bool-cases, inl, inr, lt→ltb, leb→le, leb-false,
}
use mathlib.Core.Path.{fun_ext}
use chain_stresser.Common.Int.{ℤ, pos, to_u64, sub_u64, max_int, u64_mod}
use chain_stresser.Common.Float.{Floats}
use chain_stresser.RateLimit.Limiter.{TokenBucket, wait}
use chain_stresser.RateLimit.Multi.{Metric, Fault, after_wait, next_chunk, wait_chunks}

-- The chunks of a size, an independent description of the loop: full ones, and the rest.
unfoldable pub chunks : ℕ → ℕ → ℕ → List ℕ
chunks zero burst remaining = []
chunks (suc fuel) burst zero = []
chunks (suc fuel) burst (suc r) =
    if leb (suc r) burst then suc r ∷ [] else burst ∷ chunks fuel burst (suc r - burst)

sum-chunks :
    (fuel burst remaining : ℕ)
    → 0 < burst
    → remaining ≤ fuel
    → sum (chunks fuel burst remaining) ≡ remaining
unfolding chunks
sum-chunks zero burst remaining hb h = omega arith
sum-chunks (suc fuel) burst zero hb h = refl
sum-chunks (suc fuel) burst (suc r) hb h = ground (arith, sum-chunks fuel burst (suc r - burst))

chunks_bounds :
    (fuel burst remaining : ℕ)
    → 0 < burst
    → All (λ n. (1 ≤ n) × (n ≤ burst)) (chunks fuel burst remaining)
unfolding chunks
chunks_bounds zero burst remaining hb = tt
chunks_bounds (suc fuel) burst zero hb = tt
chunks_bounds (suc fuel) burst (suc r) hb = elim (Bool-cases (leb (suc r) burst)) [
  | inl last ↦ rw last ((omega arith, leb→le _ _ last), tt)
  | inr more ↦ rw more ((hb, omega arith), chunks_bounds fuel burst (suc r - burst) hb)
]

-- The chunk of a round, where the size and the burst are in range.
next_chunk_last :
    (burst r : ℕ)
    → burst ≤ max_int
    → leb (suc r) burst ≡ true
    → next_chunk (pos burst) (suc r) ≡ pos (suc r)
next_chunk_last burst r hb h = ground arith

next_chunk_full :
    (burst r : ℕ)
    → burst ≤ max_int
    → leb (suc r) burst ≡ false
    → next_chunk (pos burst) (suc r) ≡ pos burst
next_chunk_full burst r hb h = ground arith

sub_u64_chunk :
    (remaining n : ℕ)
    → remaining < u64_mod
    → n ≤ remaining
    → sub_u64 remaining (to_u64 (pos n)) ≡ remaining - n
sub_u64_chunk remaining n hr h = omega arith

module _ (fl : Floats) (tb : TokenBucket fl.Float) where
  open tb use {Limiter, Ctx}

  -- Wait for each of a list of amounts in turn, up to the first error.
  unfoldable pub wait_all : Metric → Ctx → List ℕ → Limiter → Result Fault (Unit {0}) × Limiter
  wait_all m ctx [] l = (ok tt, l)
  wait_all m ctx (n ∷ ns) l = after_wait m (wait fl tb ctx l (pos n)) (wait_all m ctx ns)

  wait_chunks-zero :
      (fuel : ℕ) (m : Metric) (ctx : Ctx) (chunk : ℤ) (l : Limiter)
      → wait_chunks fl tb fuel m ctx chunk 0 l ≡ (ok tt, l)
  unfolding wait_chunks
  wait_chunks-zero zero m ctx chunk l = refl
  wait_chunks-zero (suc fuel) m ctx chunk l = refl

  wait_chunks-step :
      (fuel : ℕ) (m : Metric) (ctx : Ctx) (chunk : ℤ) (r : ℕ) (l : Limiter)
      → wait_chunks fl tb (suc fuel) m ctx chunk (suc r) l
        ≡ after_wait m (wait fl tb ctx l (next_chunk chunk (suc r))) (
            wait_chunks fl tb fuel m ctx chunk
              (sub_u64 (suc r) (to_u64 (next_chunk chunk (suc r)))))
  unfolding wait_chunks
  wait_chunks-step fuel m ctx chunk r l = rw (lt→ltb 0 (suc r) (omega arith))

  -- One round, with its chunk and what remains after it named.
  wait_chunks-suc :
      (fuel : ℕ) (m : Metric) (ctx : Ctx) (chunk : ℤ) (r n left : ℕ) (l : Limiter)
      → next_chunk chunk (suc r) ≡ pos n
      → sub_u64 (suc r) (to_u64 (pos n)) ≡ left
      → wait_chunks fl tb (suc fuel) m ctx chunk (suc r) l
        ≡ after_wait m (wait fl tb ctx l (pos n)) (wait_chunks fl tb fuel m ctx chunk left)
  wait_chunks-suc fuel m ctx chunk r n left l hn hl = rw (wait_chunks-step, hn, hl)

  wait_chunks-eq :
      (fuel : ℕ) (m : Metric) (ctx : Ctx) (burst remaining : ℕ) (l : Limiter)
      → 0 < burst
      → burst ≤ max_int
      → remaining < u64_mod
      → remaining ≤ fuel
      → wait_chunks fl tb fuel m ctx (pos burst) remaining l
        ≡ wait_all m ctx (chunks fuel burst remaining) l
  unfolding wait_all chunks
  wait_chunks-eq zero m ctx burst remaining l hb hb' hr h =
      let e : remaining ≡ 0 = omega arith in rw e (wait_chunks-zero 0 m ctx (pos burst) l)
  wait_chunks-eq (suc fuel) m ctx burst zero l hb hb' hr h = wait_chunks-zero (suc fuel) m ctx _ l
  wait_chunks-eq (suc fuel) m ctx burst (suc r) l hb hb' hr h =
      elim (Bool-cases (leb (suc r) burst)) [
        | inl last ↦ rw last (
            wait_chunks-suc fuel m ctx (pos burst) r (suc r) 0 l (next_chunk_last burst r hb' last)
              (omega arith)
            ∙ ap (after_wait m (wait fl tb ctx l (pos (suc r))))
                (fun_ext (wait_chunks-zero fuel m ctx _)))
        | inr more ↦ rw more (
            wait_chunks-suc fuel m ctx (pos burst) r burst (suc r - burst) l
              (next_chunk_full burst r hb' more)
              (sub_u64_chunk (suc r) burst hr (omega (arith, leb-false _ _ more)))
            ∙ ap (after_wait m (wait fl tb ctx l (pos burst))) (
                fun_ext λ l'.
                  wait_chunks-eq fuel m ctx burst (suc r - burst) l' hb hb' (omega arith)
                    (omega arith)))
      ]

  pub wait_chunks-wait_all :
      (m : Metric) (ctx : Ctx) (burst size : ℕ) (l : Limiter)
      → 0 < burst
      → burst ≤ max_int
      → size < u64_mod
      → (ns : List ℕ) × (sum ns ≡ size)
        × All (λ n. (1 ≤ n) × (n ≤ burst)) ns
        × (wait_chunks fl tb size m ctx (pos burst) size l ≡ wait_all m ctx ns l)
  wait_chunks-wait_all m ctx burst size l hb hb' hs = (
    chunks size burst size,
    sum-chunks size burst size hb (omega arith),
    chunks_bounds size burst size hb,
    wait_chunks-eq size m ctx burst size l hb hb' hs (omega arith),
  )
