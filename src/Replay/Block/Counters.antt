-- ===== src/Replay/Block/Counters.antt =====
-- stresser.go: what the summary of a replayed block counts.
use chain_stresser.Common.{
  ℕ, suc, ◌+◌, ◌*◌, ◌≤◌, ◌≡◌, refl, Bool, true, false, Option, List, [], ◌∷◌, Result, ok, err,
  arith, length, Bool-cases, inl, inr,
}
use chain_stresser.Common.Bytes.{Bytes, codes, contains}
use chain_stresser.Replay.Block.{
  Tally, no_counts, categorize_error, count_fuzzed, handle_result, fuzz_if, broadcast_one,
  broadcast_block, after_fallback, count_success, count_other,
}

abbrev pub errors : Tally → ℕ
errors c = c.timeout_errors + c.sequence_errors + c.out_of_gas_errors + c.other_errors

-- What `n` transactions add to the counters at least and at most.
pub record HasAdded (n : ℕ) (c d : Tally) : Type 0 where
  pub at_least : c.success_count + errors c + n ≤ d.success_count + errors d
  pub at_most : errors d ≤ errors c + 2 * n
  pub successes : d.success_count ≤ c.success_count + n
  pub fuzzed : d.fuzzed_count ≤ c.fuzzed_count + n
  pub fallbacks : c.fuzzed_count + d.fallback_count ≤ c.fallback_count + d.fuzzed_count
  pub fallback_successes : c.success_count + d.fallback_count ≤ c.fallback_count + d.success_count

-- An error is counted once, under exactly one of the four kinds.
pub record HasCounted (c d : Tally) : Type 0 where
  pub one_error : errors d ≡ suc (errors c)
  pub same_success : d.success_count ≡ c.success_count
  pub same_fuzzed : d.fuzzed_count ≡ c.fuzzed_count
  pub same_fallback : d.fallback_count ≡ c.fallback_count

pub categorize_error-HasCounted : (msg : Bytes) (c : Tally) → HasCounted c (categorize_error msg c)
unfolding categorize_error
categorize_error-HasCounted msg c = record {
  one_error = ground arith;
  same_success = ground arith;
  same_fuzzed = ground arith;
  same_fallback = ground arith;
}

-- Counting a fuzzed transaction changes nothing else.
count_fuzzed-HasMarked :
    (was_fuzzed : Bool) (c : Tally)
    → (errors (count_fuzzed was_fuzzed c) ≡ errors c)
      × ((count_fuzzed was_fuzzed c).success_count ≡ c.success_count)
      × ((count_fuzzed was_fuzzed c).fallback_count ≡ c.fallback_count)
      × (c.fuzzed_count ≤ (count_fuzzed was_fuzzed c).fuzzed_count)
      × ((count_fuzzed was_fuzzed c).fuzzed_count ≤ suc c.fuzzed_count)
count_fuzzed-HasMarked true c = (refl, refl, refl, omega arith, omega arith)
count_fuzzed-HasMarked false c = (refl, refl, refl, omega arith, omega arith)

other-HasAdded :
    (was_fuzzed : Bool) (c : Tally) → HasAdded 1 c (count_other (count_fuzzed was_fuzzed c))
other-HasAdded was_fuzzed c =
    let f = count_fuzzed-HasMarked was_fuzzed c in
    record {
      at_least = omega (arith, f);
      at_most = omega (arith, f);
      successes = omega (arith, f);
      fuzzed = omega (arith, f);
      fallbacks = omega (arith, f);
      fallback_successes = omega (arith, f);
    }

success-HasAdded :
    (was_fuzzed : Bool) (c : Tally) → HasAdded 1 c (count_success (count_fuzzed was_fuzzed c))
success-HasAdded was_fuzzed c =
    let f = count_fuzzed-HasMarked was_fuzzed c in
    record {
      at_least = omega (arith, f);
      at_most = omega (arith, f);
      successes = omega (arith, f);
      fuzzed = omega (arith, f);
      fallbacks = omega (arith, f);
      fallback_successes = omega (arith, f);
    }

-- The second of two errors of a transaction.
twice-HasAdded :
    (was_fuzzed : Bool) (e msg : Bytes) (c : Tally)
    → HasAdded 1 c (categorize_error e (categorize_error msg (count_fuzzed was_fuzzed c)))
twice-HasAdded was_fuzzed e msg c =
    let a = categorize_error-HasCounted msg (count_fuzzed was_fuzzed c) in
    let b = categorize_error-HasCounted e (categorize_error msg (count_fuzzed was_fuzzed c)) in
    let f = count_fuzzed-HasMarked was_fuzzed c in
    record {
      at_least = omega (arith, a.one_error, b.one_error, a.same_success, b.same_success, f);
      at_most = omega (arith, a.one_error, b.one_error, a.same_success, b.same_success, f);
      successes = omega (arith, a.same_success, b.same_success, f);
      fuzzed = omega (arith, a.same_fuzzed, b.same_fuzzed, f);
      fallbacks = omega (arith, a.same_fuzzed, b.same_fuzzed, a.same_fallback, b.same_fallback, f);
      fallback_successes =
          omega (arith, a.same_success, b.same_success, a.same_fallback, b.same_fallback, f);
    }

module _ {W F : Type 0} (broadcast_func : W → Bytes → Result Bytes Bytes × W)
    (fuzz : F → Bytes → (Bytes × Bool) × F) where
  after_fallback-HasAdded :
      (r : Result Bytes Bytes) (msg : Bytes) (c : Tally)
      → HasAdded 1 c
          (after_fallback broadcast_func fuzz r (categorize_error msg (count_fuzzed true c)))
  after_fallback-HasAdded (ok h) msg c =
      let a = categorize_error-HasCounted msg (count_fuzzed true c) in
      record {
        at_least = omega (arith, a.one_error, a.same_success);
        at_most = omega (arith, a.one_error, a.same_success);
        successes = omega (arith, a.one_error, a.same_success);
        fuzzed = omega (arith, a.same_fuzzed);
        fallbacks = omega (arith, a.same_fuzzed, a.same_fallback);
        fallback_successes = omega (arith, a.same_success, a.same_fallback);
      }
  after_fallback-HasAdded (err e) msg c = twice-HasAdded true e msg c

  handle_result-HasAdded :
      (was_fuzzed : Bool) (original : Bytes) (r : Result Bytes Bytes) (w : W) (c : Tally)
      → HasAdded 1 c
          (handle_result broadcast_func fuzz was_fuzzed original r w (count_fuzzed was_fuzzed c)).0
  handle_result-HasAdded was_fuzzed original (ok []) w c = other-HasAdded was_fuzzed c
  handle_result-HasAdded was_fuzzed original (ok (b ∷ h)) w c = success-HasAdded was_fuzzed c
  handle_result-HasAdded true original (err msg) w c =
      elim (Bool-cases (contains msg (codes "out of gas"))) [
        | inl gas ↦ rw gas (after_fallback-HasAdded _ msg c)
        | inr other ↦ rw other (twice-HasAdded true msg msg c)
      ]
  handle_result-HasAdded false original (err msg) w c = twice-HasAdded false msg msg c

  HasAdded-add : (n : ℕ) (c d e : Tally) → HasAdded 1 c d → HasAdded n d e → HasAdded (suc n) c e
  HasAdded-add n c d e a b = record {
    at_least = omega (arith, a.at_least, b.at_least);
    at_most = omega (arith, a.at_most, b.at_most);
    successes = omega (arith, a.successes, b.successes);
    fuzzed = omega (arith, a.fuzzed, b.fuzzed);
    fallbacks = omega (arith, a.fallbacks, b.fallbacks);
    fallback_successes = omega (arith, a.fallback_successes, b.fallback_successes);
  }

  HasAdded-zero : (c : Tally) → HasAdded 0 c c
  HasAdded-zero c = record {
    at_least = omega arith;
    at_most = omega arith;
    successes = omega arith;
    fuzzed = omega arith;
    fallbacks = omega arith;
    fallback_successes = omega arith;
  }

  broadcast_one-HasAdded :
      (tx : Bytes) (w : W) (f : Option F) (c : Tally)
      → HasAdded 1 c (broadcast_one broadcast_func fuzz tx w f c).0
  unfolding broadcast_one
  broadcast_one-HasAdded tx w f c =
      let p = (fuzz_if broadcast_func fuzz f tx).0 in
      let q = broadcast_func w p.0 in handle_result-HasAdded p.1 tx q.0 q.1 c

  broadcast_block-HasAdded :
      (txs : List Bytes) (w : W) (f : Option F) (c : Tally)
      → HasAdded (length txs) c (broadcast_block broadcast_func fuzz txs w f c).0
  unfolding broadcast_block
  broadcast_block-HasAdded [] w f c = HasAdded-zero c
  broadcast_block-HasAdded (tx ∷ txs) w f c =
      let (c', w', f') = broadcast_one broadcast_func fuzz tx w f c in
      HasAdded-add (length txs) c c' _ (broadcast_one-HasAdded tx w f c)
        (broadcast_block-HasAdded txs w' f' c')

  -- The summary of a block of `n` transactions, whatever the node and the fuzzer do: every
  -- transaction is counted as a success or an error, at most `n` successes and `2 * n` errors are
  -- counted, at most `n` transactions as fuzzed, and a fallback only for a fuzzed transaction, and
  -- then as a success.
  pub block_summary_bounds :
      (txs : List Bytes) (w : W) (f : Option F)
      → let c = (broadcast_block broadcast_func fuzz txs w f no_counts).0 in
        (length txs ≤ c.success_count + errors c)
        × (errors c ≤ 2 * length txs)
        × (c.success_count ≤ length txs)
        × (c.fuzzed_count ≤ length txs)
        × (c.fallback_count ≤ c.fuzzed_count)
        × (c.fallback_count ≤ c.success_count)
  block_summary_bounds txs w f =
      let h = broadcast_block-HasAdded txs w f no_counts in
      (
        omega (arith, h.at_least),
        omega (arith, h.at_most),
        omega (arith, h.successes),
        omega (arith, h.fuzzed),
        omega (arith, h.fallbacks),
        omega (arith, h.fallback_successes),
      )
