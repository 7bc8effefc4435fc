-- ===== src/Stress/Pipeline/Progress.antt =====
-- stresser.go: the steps that the pipeline can take, and how many of them there are.
use chain_stresser.Common.{
  ℕ, suc, ◌+◌, ◌*◌, ◌≤◌, ◌<◌, ◌≡◌, refl, sym, ap, ◌∙◌, List, [], ◌∷◌, arith, length, length-append,
}
use chain_stresser.Common.Sums.{sum_below-le, sum_below_short}
use chain_stresser.Stress.Pipeline.{
  Provider, Sizes, Pipe, Step, generate, take, sign, collect, Reach, here, next_step,
}
use chain_stresser.Stress.Pipeline.Invariant.{reachable-Invariant}

module _ (pr : Provider) (sz : Sizes) (initial : ℕ → ℕ) where
  open pr use {Tx}
  open sz use {accounts, num, cpus, capacity}

  -- The number of steps that led to a state.
  unfoldable pub steps : {p : Pipe pr sz initial} → Reach pr sz initial p → ℕ
  steps here = 0
  steps (next_step r s) = suc (steps r)

  -- Each transaction takes four steps.
  abbrev moves : Pipe pr sz initial → ℕ
  moves p = length p.tx_queue + 2 * length p.signing + 3 * length p.signed_queue + 4 * p.collected

  step-moves : {p q : Pipe pr sz initial} → Step pr sz initial p q → moves q ≡ suc (moves p)
  step-moves {p} (generate k hk hn room) = rw (length-append p.tx_queue _) (omega arith)
  step-moves {p} (take t ts e idle) = omega (arith, ap length e)
  step-moves {p} (sign before after t e room) =
      rw
        (
          e,
          length-append before (t ∷ after),
          length-append before after,
          length-append p.signed_queue _,
        )
        (omega arith)
  step-moves {p} (collect t ts e more) = omega (arith, ap length e)

  steps-moves : {p : Pipe pr sz initial} (r : Reach pr sz initial p) → steps r ≡ moves p
  unfolding steps
  steps-moves here = omega arith
  steps-moves (next_step r s) = ap suc (steps-moves r) ∙ sym (step-moves s)

  -- No run of the pipeline has more than four steps for each transaction: every run ends.
  pub steps_bounded :
      {p : Pipe pr sz initial} (r : Reach pr sz initial p) → steps r ≤ 4 * (accounts * num)
  steps_bounded {p} r =
      let inv = reachable-Invariant pr sz initial r in
      omega (arith, steps-moves r, inv.total, sum_below-le accounts p.next num inv.next_le)

  module _ (p : Pipe pr sz initial) (r : Reach pr sz initial p) (has_cpu : 0 < cpus)
      (has_room : 0 < capacity) (more : p.collected < accounts * num) where
    abbrev CanStep : Type 0
    CanStep = (q : Pipe pr sz initial) × Step pr sz initial p q

    can_generate : p.tx_queue ≡ [] → p.signing ≡ [] → p.signed_queue ≡ [] → CanStep
    can_generate e f g =
        let inv = reachable-Invariant pr sz initial r in
        let (k, hk, hn) =
          sum_below_short accounts p.next num
            (omega (arith, inv.total, ap length e, ap length f, ap length g)) in
        (_, generate k hk hn (rw e has_room))

    can_take : (ts : List Tx) → p.tx_queue ≡ ts → p.signing ≡ [] → p.signed_queue ≡ [] → CanStep
    can_take [] e f g = can_generate e f g
    can_take (t ∷ ts) e f g = (_, take t ts e (rw f has_cpu))

    can_sign : (ts : List Tx) → p.signing ≡ ts → p.signed_queue ≡ [] → CanStep
    can_sign [] e f = can_take p.tx_queue refl e f
    can_sign (t ∷ ts) e f = (_, sign [] ts t e (rw f has_room))

    can_collect : (ts : List Tx) → p.signed_queue ≡ ts → CanStep
    can_collect [] e = can_sign p.signing refl e
    can_collect (t ∷ ts) e = (_, collect t ts e more)

  -- While a transaction is not collected, a goroutine can go on: with a signer and with room in the
  -- channels the pipeline never deadlocks.
  pub no_deadlock :
      (p : Pipe pr sz initial)
      → Reach pr sz initial p
      → 0 < cpus
      → 0 < capacity
      → p.collected < accounts * num
      → (q : Pipe pr sz initial) × Step pr sz initial p q
  no_deadlock p r has_cpu has_room more = can_collect p r has_cpu has_room more p.signed_queue refl
