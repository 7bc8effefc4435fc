-- ===== src/Stress/Pipeline/Invariant.antt =====
-- stresser.go: what holds of the pipeline after every step, in every interleaving.
use mathlib.Core.Path.{subst}
use chain_stresser.Common.{
  ℕ, suc, ◌+◌, ◌≤◌, ◌<◌, ◌≡◌, refl, sym, ap, ◌&&◌, Option, some, List, [], ◌∷◌, ◌++◌, arith, ◌==◌,
  if◌then◌else◌, ltb, length, length-append, All, All-append, All-remove,
}
use chain_stresser.Common.Bytes.{Bytes}
use chain_stresser.Common.Sums.{update, sum_below, sum_below-zero, sum_below-update-suc}
use chain_stresser.Stress.Pipeline.{
  Provider, Sizes, Pipe, start, generated, store, Step, generate, take, sign, collect, Reach, here,
  next_step,
}
use chain_stresser.Stress.Pipeline.Counts.{at_cell, count_at, count_at-append, count_at-one, filled}

module _ (pr : Provider) (sz : Sizes) (initial : ℕ → ℕ) where
  open pr use {
    Tx, from_idx, tx_idx, bytes, generate_tx, sign_tx, from_idx-generate_tx, tx_idx-generate_tx,
    from_idx-sign_tx, tx_idx-sign_tx,
  }

  abbrev pub generated_at : Tx → Tx
  generated_at t = generated pr sz initial (from_idx t) (tx_idx t)

  -- A transaction is the one generated for its own indices, and that one signed.
  abbrev pub IsGenerated : Tx → Type 0
  IsGenerated t = t ≡ generated_at t

  abbrev pub IsSigned : Tx → Type 0
  IsSigned t = t ≡ sign_tx (generated_at t)

  -- Where a cell's transaction is: in a queue, with a signer, or stored.
  abbrev pub places : Pipe pr sz initial → ℕ → ℕ → ℕ
  places p i j =
      count_at pr i j p.tx_queue
      + (count_at pr i j p.signing + (count_at pr i j p.signed_queue + filled (p.table i j)))

  pub record Invariant (p : Pipe pr sz initial) : Type 0 where
    pub queued_generated : All IsGenerated p.tx_queue
    pub signing_generated : All IsGenerated p.signing
    pub queued_signed : All IsSigned p.signed_queue
    pub stored :
        (i j : ℕ) (b : Bytes)
        → p.table i j ≡ some b
        → b ≡ bytes (sign_tx (generated pr sz initial i j))
    pub once : (i j : ℕ) → places p i j ≡ (if ltb j (p.next i) then 1 else 0)
    pub next_le : (i : ℕ) → p.next i ≤ sz.num
    pub next_out : (i : ℕ) → sz.accounts ≤ i → p.next i ≡ 0
    pub total :
        length p.tx_queue + length p.signing + length p.signed_queue + p.collected
        ≡ sum_below sz.accounts p.next

  start-Invariant : Invariant (start pr sz initial)
  unfolding count_at
  start-Invariant = record {
    queued_generated = tt;
    signing_generated = tt;
    queued_signed = tt;
    stored = λ i j b h. absurd (cc);
    once = λ i j. ground arith;
    next_le = λ i. omega arith;
    next_out = λ i h. refl;
    total = sym (sum_below-zero sz.accounts);
  }

  generated-IsGenerated : (i j : ℕ) → IsGenerated (generated pr sz initial i j)
  generated-IsGenerated i j =
      rw (from_idx-generate_tx i j (initial i + j), tx_idx-generate_tx i j (initial i + j)) refl

  at_cell-generated :
      (i j k n : ℕ)
      → at_cell pr i j (generated pr sz initial k n) ≡ (if i == k && j == n then 1 else 0)
  at_cell-generated i j k n =
      rw (from_idx-generate_tx k n (initial k + n), tx_idx-generate_tx k n (initial k + n)) refl

  sign_tx-IsSigned : (t : Tx) → IsGenerated t → IsSigned (sign_tx t)
  sign_tx-IsSigned t h = rw (from_idx-sign_tx t, tx_idx-sign_tx t) (ap sign_tx h)

  module _ (before after queue : List Tx) (all : List Tx) (t : Tx)
      (e : all ≡ before ++ t ∷ after) where
    moved_count :
        (i j : ℕ)
        → count_at pr i j all + count_at pr i j queue
          ≡ count_at pr i j (before ++ after) + count_at pr i j (queue ++ sign_tx t ∷ [])
    unfolding count_at
    moved_count i j =
        rw
          (
            e,
            count_at-append pr i j before (t ∷ after),
            count_at-append pr i j before after,
            count_at-append pr i j queue (sign_tx t ∷ []),
            from_idx-sign_tx t,
            tx_idx-sign_tx t,
          )
          (omega arith)

    moved_length_lem :
        length all + length queue ≡ length (before ++ after) + length (queue ++ sign_tx t ∷ [])
    moved_length_lem =
        rw
          (
            e,
            length-append before (t ∷ after),
            length-append before after,
            length-append queue (sign_tx t ∷ []),
          )
          (omega arith)

  stored_store :
      (table : ℕ → ℕ → Option Bytes) (t : Tx)
      → IsSigned t
      → ((i j : ℕ) (b : Bytes)
          → table i j ≡ some b
          → b ≡ bytes (sign_tx (generated pr sz initial i j)))
      → (i j : ℕ) (b : Bytes) → store pr sz initial table t i j ≡ some b
      → b ≡ bytes (sign_tx (generated pr sz initial i j))
  stored_store table t signed old i j b h = ground (arith, old i j b)

  module _ (p : Pipe pr sz initial) (inv : Invariant p) where
    open inv use {
      queued_generated, signing_generated, queued_signed, stored, once, next_le, next_out, total,
    }

    -- A queue and a table, each changed at a generator's next index.
    after_generate :
        (k : ℕ)
        → k < sz.accounts
        → p.next k < sz.num
        → Invariant (record p {
          next = update p.next k (suc (p.next k));
          tx_queue = p.tx_queue ++ generated pr sz initial k (p.next k) ∷ [];
        })
    after_generate k hk hn = record {
      queued_generated =
          All-append IsGenerated p.tx_queue _ queued_generated
            (generated-IsGenerated k (p.next k), tt);
      signing_generated = signing_generated;
      queued_signed = queued_signed;
      stored = stored;
      once = λ i j.
          rw
            (
              count_at-append pr i j p.tx_queue (generated pr sz initial k (p.next k) ∷ []),
              count_at-one pr i j (generated pr sz initial k (p.next k)),
              at_cell-generated i j k (p.next k),
            )
            (ground (arith, once i j));
      next_le = λ i. ground (arith, next_le i);
      next_out = λ i h. ground (arith, next_out i h);
      total =
          rw
            (
              length-append p.tx_queue (generated pr sz initial k (p.next k) ∷ []),
              sum_below-update-suc sz.accounts p.next k hk,
            )
            (omega (arith, total));
    }

    after_take :
        (t : Tx) (ts : List Tx)
        → p.tx_queue ≡ t ∷ ts
        → Invariant (record p { tx_queue = ts; signing = t ∷ p.signing })
    unfolding count_at
    after_take t ts e =
        let all : All IsGenerated (t ∷ ts) = subst (All IsGenerated) e queued_generated in
        record {
          queued_generated = all.1;
          signing_generated = (all.0, signing_generated);
          queued_signed = queued_signed;
          stored = stored;
          once = λ i j. omega (arith, once i j, ap (count_at pr i j) e);
          next_le = next_le;
          next_out = next_out;
          total = omega (arith, total, ap length e);
        }

    after_sign :
        (before after : List Tx) (t : Tx)
        → p.signing ≡ before ++ t ∷ after
        → Invariant (record p {
          signing = before ++ after;
          signed_queue = p.signed_queue ++ sign_tx t ∷ [];
        })
    after_sign before after t e =
        let (one, rest) =
          All-remove IsGenerated before after t (subst (All IsGenerated) e signing_generated) in
        let moved : (i j : ℕ)
            → count_at pr i j p.signing + count_at pr i j p.signed_queue
              ≡ count_at pr i j (before ++ after)
                + count_at pr i j (p.signed_queue ++ sign_tx t ∷ []) =
          λ i j. moved_count before after p.signed_queue p.signing t e i j in
        let moved_length = moved_length_lem before after p.signed_queue p.signing t e in
        record {
          queued_generated = queued_generated;
          signing_generated = rest;
          queued_signed =
              All-append IsSigned p.signed_queue _ queued_signed (sign_tx-IsSigned t one, tt);
          stored = stored;
          once = λ i j. omega (arith, once i j, moved i j);
          next_le = next_le;
          next_out = next_out;
          total = omega (arith, total, moved_length);
        }

    after_collect :
        (t : Tx) (ts : List Tx)
        → p.signed_queue ≡ t ∷ ts
        → Invariant (record p {
          signed_queue = ts;
          collected = suc p.collected;
          table = store pr sz initial p.table t;
        })
    unfolding count_at
    after_collect t ts e =
        let all : All IsSigned (t ∷ ts) = subst (All IsSigned) e queued_signed in
        record {
          queued_generated = queued_generated;
          signing_generated = signing_generated;
          queued_signed = all.1;
          stored = stored_store p.table t all.0 stored;
          once = λ i j. ground (arith, once i j, ap (count_at pr i j) e);
          next_le = next_le;
          next_out = next_out;
          total = omega (arith, total, ap length e);
        }

  step-Invariant : {p q : Pipe pr sz initial} → Step pr sz initial p q → Invariant p → Invariant q
  step-Invariant {p} (generate k hk hn room) inv = after_generate p inv k hk hn
  step-Invariant {p} (take t ts e idle) inv = after_take p inv t ts e
  step-Invariant {p} (sign before after t e room) inv = after_sign p inv before after t e
  step-Invariant {p} (collect t ts e more) inv = after_collect p inv t ts e

  -- In every state that the pipeline can reach, in any interleaving: what waits to be signed is as
  -- generated and what waits to be collected is signed; a filled cell of the table holds the bytes of
  -- its own signed transaction; a transaction is in one place exactly if its generator is past it,
  -- and none is lost or doubled.
  pub reachable-Invariant : {p : Pipe pr sz initial} → Reach pr sz initial p → Invariant p
  reachable-Invariant here = start-Invariant
  reachable-Invariant (next_step r s) = step-Invariant s (reachable-Invariant r)
