-- ===== src/Stress/Initial.antt =====
-- stresser.go: `getAccountNumberSequence` and `createAndBroadcastInitialTxs`. The initial transactions
-- are made one by one, and then broadcast by a pool of workers, each of which tries its transaction
-- under retry-go with five attempts and the context: a step is one call of one worker. A panic ends
-- the process (`RecvDie`) and is no step.
pub mod Workers
pub mod Ends
use chain_stresser.Common.{
  ℕ, zero, suc, ◌+◌, ◌<◌, ◌≡◌, Bool, true, false, Option, none, some, List, [], ◌∷◌, ◌++◌, Result,
  ok, err, ◌⊎◌, inl, inr, if◌then◌else◌, ltb, length,
}
use chain_stresser.Payload.Base.{Account, TxRequest}

abbrev pub initial_attempts : ℕ
initial_attempts = 5

-- The request for a key: the only key, and its index.
abbrev pub initial_request : {Key : Type 0} → ℕ → Key → ℕ × ℕ → TxRequest Key
initial_request key_idx key (number, sequence) = record {
  keys = key ∷ [];
  from = record { name = []; key = key; number = number; sequence = sequence };
  from_idx = key_idx;
  tx_idx = 0;
}

abbrev pub add_initial : {E T : Type 0} → Option T → Result E (List T) → Result E (List T)
add_initial o (err e) = err e
add_initial none (ok ts) = ok ts
add_initial (some t) (ok ts) = ok (t ∷ ts)

-- An error ends the loop; the rest of it is there otherwise.
abbrev pub after_initial :
    {E T W : Type 0} → W → Result E (Option T) → Result E (List T) × W → Result E (List T) × W
after_initial w (err e) rest = (err e, w)
after_initial w (ok o) (ts, w') = (add_initial o ts, w')

module _ {Key T E W : Type 0}
    -- `getAccountNumberSequence` with its retries, and `GenerateInitialTx`
    (get_account_number_sequence : W → Key → Result E (ℕ × ℕ) × W)
    (generate_initial_tx : W → TxRequest Key → Result E (Option T) × W) where
  -- The loop over the keys, from any index. The world `w` holds the provider, whose
  -- `GenerateInitialTx` may change it.
  unfoldable pub create_initial_txs : ℕ → List Key → W → Result E (List T) × W
  create_initial_txs key_idx [] w = (ok [], w)
  create_initial_txs key_idx (key ∷ keys) w =
      let (r, w') = get_account_number_sequence w key in
      elim r [
        | err e ↦ (err e, w')
        | ok account ↦
            let (o, made) = generate_initial_tx w' (initial_request key_idx key account) in
            let rest = create_initial_txs (suc key_idx) keys made in after_initial made o rest
      ]

-- A worker of the pool on its transaction: the failed attempts, and what the attempt has signed.
pub record Worker (T S : Type 0) : Type 0 where
  pub tx : T
  pub attempts : ℕ
  pub signed : Option S

pub data InitialOutcome : Type 0 where
  sent : InitialOutcome
  gave_up : InitialOutcome
  cancelled : InitialOutcome

-- A transaction whose function has returned, with the attempts that were finished.
pub record Settled (T : Type 0) : Type 0 where
  pub tx : T
  pub attempts : ℕ
  pub outcome : InitialOutcome

pub record Pool (T S : Type 0) : Type 0 where
  pub waiting : List T
  pub running : List (Worker T S)
  pub settled : List (Settled T)

abbrev pub max_parallel_initial_txs_broadcasts : ℕ
max_parallel_initial_txs_broadcasts = 8

-- What `pool.Submit` leaves behind for all transactions.
abbrev pub submitted : {T S : Type 0} → List T → Pool T S
submitted ts = record { waiting = ts; running = []; settled = [] }

abbrev pub fresh_worker : {T S : Type 0} → T → Worker T S
fresh_worker t = record { tx = t; attempts = 0; signed = none }

module _ {T S : Type 0} where
  -- An attempt that failed is followed by another one, up to the limit of `retry.Attempts`.
  unfoldable pub after_failure : Worker T S → Worker T S ⊎ Settled T
  after_failure j =
      if ltb (suc j.attempts) initial_attempts
      then inl (record { tx = j.tx; attempts = suc j.attempts; signed = none })
      else inr (record { tx = j.tx; attempts = suc j.attempts; outcome = gave_up })

  -- The returns of the function that is tried: behind `BuildAndSignTx`, and behind `Broadcast`.
  unfoldable pub after_sign : {E : Type 0} → Result E S → Worker T S → Worker T S ⊎ Settled T
  unfolding after_failure
  after_sign (err e) j = after_failure j
  after_sign (ok s) j = inl (record { tx = j.tx; attempts = j.attempts; signed = some s })

  unfoldable pub after_initial_broadcast :
      {E H : Type 0} → Result E H → Worker T S → Worker T S ⊎ Settled T
  unfolding after_failure
  after_initial_broadcast (err e) j = after_failure j
  after_initial_broadcast (ok h) j =
      inr (record { tx = j.tx; attempts = suc j.attempts; outcome = sent })

  -- The pool once one of its workers goes on, or is done.
  abbrev pub put :
      List T
      → List (Worker T S)
      → List (Worker T S)
      → List (Settled T)
      → Worker T S ⊎ Settled T
      → Pool T S
  put ts before after fs (inl k) = record {
    waiting = ts;
    running = before ++ k ∷ after;
    settled = fs;
  }
  put ts before after fs (inr f) = record {
    waiting = ts;
    running = before ++ after;
    settled = f ∷ fs;
  }

module _ {T S H E W : Type 0}
    -- `BuildAndSignTx`, `Broadcast` with await, and whether the context is cancelled
    (build_and_sign : W → T → Result E S × W) (broadcast : W → S → Result E H × W)
    (is_cancelled : W → Bool) where
  -- One call of a worker: it signs, or broadcasts what it has signed.
  unfoldable pub work_on : W → Worker T S → Option S → (Worker T S ⊎ Settled T) × W
  unfolding after_sign after_initial_broadcast
  work_on w j none = let (r, w') = build_and_sign w j.tx in (after_sign r j, w')
  work_on w j (some s) = let (r, w') = broadcast w s in (after_initial_broadcast r j, w')

  -- A worker takes a transaction, makes its next call, or sees between two attempts that the context
  -- is cancelled.
  pub data PoolStep (w : W) : Pool T S → W → Pool T S → Type 0 where
    start_worker :
        (t : T) (ts : List T) (rs : List (Worker T S)) (fs : List (Settled T))
        → length rs < max_parallel_initial_txs_broadcasts
        → PoolStep w
            (record { waiting = t ∷ ts; running = rs; settled = fs })
            w
            (record { waiting = ts; running = rs ++ fresh_worker t ∷ []; settled = fs })
    worker_calls :
        (ts : List T) (before after : List (Worker T S)) (fs : List (Settled T)) (j : Worker T S)
        → PoolStep w
            (record { waiting = ts; running = before ++ j ∷ after; settled = fs })
            (work_on w j j.signed).1
            (put ts before after fs (work_on w j j.signed).0)
    worker_cancelled :
        (ts : List T) (before after : List (Worker T S)) (fs : List (Settled T)) (j : Worker T S)
        → j.signed ≡ none
        → is_cancelled w ≡ true
        → PoolStep w
            (record { waiting = ts; running = before ++ j ∷ after; settled = fs })
            w
            (put ts before after fs
              (inr (record { tx = j.tx; attempts = j.attempts; outcome = cancelled })))

  -- Steps from the submission of the transactions on.
  pub data PoolRun (w0 : W) (txs : List T) : W → Pool T S → Type 0 where
    pool_starts : PoolRun w0 txs w0 (submitted txs)
    pool_goes_on :
        {w w' : W} {p p' : Pool T S}
        → PoolRun w0 txs w p
        → PoolStep w p w' p'
        → PoolRun w0 txs w' p'

  unfoldable pub pool_steps :
      {w0 : W} {txs : List T} {w : W} {p : Pool T S} → PoolRun w0 txs w p → ℕ
  pool_steps pool_starts = 0
  pool_steps (pool_goes_on r s) = suc (pool_steps r)
