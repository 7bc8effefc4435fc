-- ===== src/Replay/Block/Order.antt =====
-- stresser.go: a block that is replayed without fuzzing.
use chain_stresser.Common.{
  ℕ, suc, ◌+◌, ◌*◌, ◌≡◌, refl, Bool, none, List, [], ◌∷◌, Result, ok, err, arith,
}
use chain_stresser.Common.Bytes.{Bytes}
use chain_stresser.Replay.Block.{
  Tally, no_counts, categorize_error, broadcast_one, broadcast_block, count_success, count_other,
}
use chain_stresser.Replay.Block.Counters.{errors, categorize_error-HasCounted}

-- The outcomes of a list of broadcasts: hashes, empty hashes and errors.
abbrev pub successes : List (Result Bytes Bytes) → ℕ
successes [] = 0
successes (ok [] ∷ rs) = successes rs
successes (ok (b ∷ h) ∷ rs) = suc (successes rs)
successes (err e ∷ rs) = successes rs

abbrev pub empties : List (Result Bytes Bytes) → ℕ
empties [] = 0
empties (ok [] ∷ rs) = suc (empties rs)
empties (ok (b ∷ h) ∷ rs) = empties rs
empties (err e ∷ rs) = empties rs

abbrev pub failures : List (Result Bytes Bytes) → ℕ
failures [] = 0
failures (ok h ∷ rs) = failures rs
failures (err e ∷ rs) = suc (failures rs)

-- How the outcomes are counted: an error twice.
abbrev pub count_result : Result Bytes Bytes → Tally → Tally
count_result (ok []) c = count_other c
count_result (ok (b ∷ h)) c = count_success c
count_result (err e) c = categorize_error e (categorize_error e c)

abbrev pub count_results : List (Result Bytes Bytes) → Tally → Tally
count_results [] c = c
count_results (r ∷ rs) c = count_results rs (count_result r c)

record HasTotals (rs : List (Result Bytes Bytes)) (c d : Tally) : Type 0 where
  all_errors : errors d ≡ errors c + (2 * failures rs + empties rs)
  all_successes : d.success_count ≡ c.success_count + successes rs

count_results-HasTotals :
    (rs : List (Result Bytes Bytes)) (c : Tally) → HasTotals rs c (count_results rs c)
count_results-HasTotals [] c = record { all_errors = omega arith; all_successes = omega arith }
count_results-HasTotals (ok [] ∷ rs) c =
    let h = count_results-HasTotals rs (count_other c) in
    record {
      all_errors = omega (arith, h.all_errors);
      all_successes = omega (arith, h.all_successes);
    }
count_results-HasTotals (ok (b ∷ x) ∷ rs) c =
    let h = count_results-HasTotals rs (count_success c) in
    record {
      all_errors = omega (arith, h.all_errors);
      all_successes = omega (arith, h.all_successes);
    }
count_results-HasTotals (err e ∷ rs) c =
    let a = categorize_error-HasCounted e c in
    let b = categorize_error-HasCounted e (categorize_error e c) in
    let h = count_results-HasTotals rs (categorize_error e (categorize_error e c)) in
    record {
      all_errors = omega (arith, h.all_errors, a.one_error, b.one_error);
      all_successes = omega (arith, h.all_successes, a.same_success, b.same_success);
    }

module _ {W F : Type 0} (broadcast_func : W → Bytes → Result Bytes Bytes × W)
    (fuzz : F → Bytes → (Bytes × Bool) × F) where
  -- Each text sent once, in order: the outcomes, and the world after them.
  abbrev pub send_each : List Bytes → W → List (Result Bytes Bytes) × W
  send_each [] w = ([], w)
  send_each (tx ∷ txs) w =
      let (r, w') = broadcast_func w tx in let (rs, w'') = send_each txs w' in (r ∷ rs, w'')

  one_unfuzzed :
      (r : Result Bytes Bytes) (tx : Bytes) (w : W) (c : Tally)
      → broadcast_func w tx ≡ (r, (broadcast_func w tx).1)
      → broadcast_one broadcast_func fuzz tx w none c
        ≡ (count_result r c, (broadcast_func w tx).1, none)
  unfolding broadcast_one
  one_unfuzzed (ok []) tx w c e = rw (e, broadcast_one)
  one_unfuzzed (ok (b ∷ h)) tx w c e = rw (e, broadcast_one)
  one_unfuzzed (err m) tx w c e = rw (e, broadcast_one)

  block_unfuzzed :
      (txs : List Bytes) (w : W) (c : Tally)
      → broadcast_block broadcast_func fuzz txs w none c
        ≡ (count_results (send_each txs w).0 c, (send_each txs w).1, none)
  unfolding broadcast_block
  block_unfuzzed [] w c = refl
  block_unfuzzed (tx ∷ txs) w c =
      rw (one_unfuzzed (broadcast_func w tx).0 tx w c refl)
        (block_unfuzzed txs (broadcast_func w tx).1 (count_result (broadcast_func w tx).0 c))

  -- Without a gas fuzzer a block is replayed by sending the bytes of each transaction exactly once,
  -- in the order of the block. The summary counts every hash as a success and every empty hash as an
  -- error, but every failed broadcast as two errors.
  pub unfuzzed_block :
      (txs : List Bytes) (w : W)
      → let (c, w', f) = broadcast_block broadcast_func fuzz txs w none no_counts in
        let (rs, w'') = send_each txs w in
        (w' ≡ w'') × (c.success_count ≡ successes rs) × (errors c ≡ 2 * failures rs + empties rs)
  unfuzzed_block txs w =
      let h = count_results-HasTotals (send_each txs w).0 no_counts in
      rw (block_unfuzzed txs w no_counts)
        (refl, omega (arith, h.all_successes), omega (arith, h.all_errors))
