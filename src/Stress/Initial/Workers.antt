-- ===== src/Stress/Initial/Workers.antt =====
-- stresser.go, `createAndBroadcastInitialTxs`: what the workers of the pool leave behind.
use chain_stresser.Common.{
  ℕ, ◌+◌, ◌≤◌, ◌<◌, ◌≡◌, ◌⊎◌, inl, inr, Bool, true, if◌then◌else◌, Option, none, some, List, Result,
  ok, err, length, All, sum_by,
}
use chain_stresser.Stress.Initial.{
  Worker, Settled, InitialOutcome, sent, gave_up, cancelled, Pool, PoolRun,
}

-- A settled transaction that passes a test counts for one.
abbrev pub settled_one : {T : Type 0} → (T → Bool) → Settled T → ℕ
settled_one q f = if q f.tx then 1 else 0

module _ {T S H E W : Type 0} (build_and_sign : W → T → Result E S × W)
    (broadcast : W → S → Result E H × W) (is_cancelled : W → Bool) (w0 : W) (txs : List T) where
  abbrev HasRun : W → Pool T S → Type 0
  HasRun w p = PoolRun build_and_sign broadcast is_cancelled w0 txs w p

  -- In a world that the run went through, the transaction was signed with this result.
  abbrev pub IsSigned : T → S → Type 0
  IsSigned t s =
      (w : W) × (p : Pool T S) × HasRun w p × (w' : W) × (build_and_sign w t ≡ (ok s, w'))

  -- In such a world, what was signed of the transaction was broadcast with success.
  abbrev pub IsSent : T → Type 0
  IsSent t =
      (s : S) × IsSigned t s
      × (w : W) × (p : Pool T S) × HasRun w p
      × (h : H) × (w' : W) × (broadcast w s ≡ (ok h, w'))

  -- In such a world, an attempt failed: the signing, or the broadcast of what was signed.
  abbrev pub HasFailed : T → Type 0
  HasFailed t =
      (w : W) × (p : Pool T S) × HasRun w p
      × (e : E) × (w' : W) × ((build_and_sign w t ≡ (err e, w'))
          ⊎ ((s : S) × IsSigned t s × (broadcast w s ≡ (err e, w'))))

  abbrev Explains : T → ℕ → InitialOutcome → Type 0
  Explains t n sent = (n ≤ 5) × IsSent t
  Explains t n gave_up = (n ≡ 5) × HasFailed t
  Explains t n cancelled = (n < 5) × (w : W) × (p : Pool T S) × HasRun w p × (is_cancelled w ≡ true)

  -- The outcome is what has happened.
  abbrev pub IsExplained : Settled T → Type 0
  IsExplained f = Explains f.tx f.attempts f.outcome

  abbrev Holds : T → Option S → Type 0
  Holds t none = Unit
  Holds t (some s) = IsSigned t s

  abbrev IsGood : Worker T S → Type 0
  IsGood j = (j.attempts < 5) × Holds j.tx j.signed

  abbrev IsNext : Worker T S ⊎ Settled T → Type 0
  IsNext (inl k) = IsGood k
  IsNext (inr f) = IsExplained f

  -- A transaction that passes a test counts for one.
  abbrev one : (T → Bool) → T → ℕ
  one q t = if q t then 1 else 0

  abbrev worker_one : (T → Bool) → Worker T S → ℕ
  worker_one q j = one q j.tx

  abbrev pool_count : (T → Bool) → Pool T S → ℕ
  pool_count q p =
      sum_by (one q) p.waiting
      + (sum_by (worker_one q) p.running + sum_by (settled_one q) p.settled)

  abbrev next_tx : Worker T S ⊎ Settled T → T
  next_tx (inl k) = k.tx
  next_tx (inr f) = f.tx

  -- What holds of the pool: its workers and what is settled are as the run explains them, there are
  -- eight workers at most, and no transaction is lost or doubled.
  abbrev IsKept : Pool T S → Type 0
  IsKept p =
      All IsGood p.running
      × All IsExplained p.settled
      × (length p.running ≤ 8)
      × ((q : T → Bool) → pool_count q p ≡ sum_by (one q) txs)
