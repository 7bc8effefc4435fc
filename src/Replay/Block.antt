-- ===== src/Replay/Block.antt =====
-- stresser.go: how `StressReplay` broadcasts the transactions of one block, with
-- `handleFallbackBroadcast` and `categorizeError`. An error is its message here.
pub mod Counters
pub mod Order
use chain_stresser.Common.{
  ℕ, suc, ◌+◌, Bool, true, false, ◌&&◌, Option, none, some, List, [], ◌∷◌, Result, ok, err,
  if◌then◌else◌, arith,
}
use chain_stresser.Common.Bytes.{Bytes, codes, contains}

-- The variables that the loop over the block counts in.
pub record Tally : Type 0 where
  pub success_count : ℕ
  pub timeout_errors : ℕ
  pub sequence_errors : ℕ
  pub out_of_gas_errors : ℕ
  pub other_errors : ℕ
  pub fuzzed_count : ℕ
  pub fallback_count : ℕ

abbrev pub no_counts : Tally
no_counts = record {
  success_count = 0;
  timeout_errors = 0;
  sequence_errors = 0;
  out_of_gas_errors = 0;
  other_errors = 0;
  fuzzed_count = 0;
  fallback_count = 0;
}

unfoldable pub categorize_error : Bytes → Tally → Tally
categorize_error err_msg c =
    if contains err_msg (codes "tx timeout height")
    then record c { timeout_errors = suc c.timeout_errors }
    else if contains err_msg (codes "account sequence mismatch")
    then record c { sequence_errors = suc c.sequence_errors }
    else if contains err_msg (codes "out of gas")
    then record c { out_of_gas_errors = suc c.out_of_gas_errors }
    else record c { other_errors = suc c.other_errors }

abbrev pub count_success : Tally → Tally
count_success c = record c { success_count = suc c.success_count }

abbrev pub count_other : Tally → Tally
count_other c = record c { other_errors = suc c.other_errors }

abbrev pub count_fallback : Tally → Tally
count_fallback c = record c {
  success_count = suc c.success_count;
  fallback_count = suc c.fallback_count;
}

abbrev pub count_fuzzed : Bool → Tally → Tally
count_fuzzed false c = c
count_fuzzed true c = record c { fuzzed_count = suc c.fuzzed_count }

-- The world is what the broadcast function acts on, `F` the state of the gas fuzzer.
module _ {W F : Type 0} (broadcast_func : W → Bytes → Result Bytes Bytes × W)
    (fuzz : F → Bytes → (Bytes × Bool) × F) where
  abbrev fallback_result : Result Bytes Bytes → Result Bytes Bytes
  fallback_result (err e) = err e
  fallback_result (ok []) = err (codes "fallback transaction returned empty hash")
  fallback_result (ok (c ∷ h)) = ok (c ∷ h)

  -- The hash of a fallback that succeeded, or the message of its error.
  unfoldable pub handle_fallback_broadcast : W → Bytes → Result Bytes Bytes × W
  handle_fallback_broadcast w original =
      let (r, w') = broadcast_func w original in (fallback_result r, w')

  abbrev pub after_fallback : Result Bytes Bytes → Tally → Tally
  after_fallback (ok h) c = count_fallback c
  after_fallback (err e) c = categorize_error e c

  -- What follows the broadcast of a transaction, fuzzed or not.
  abbrev pub handle_result : Bool → Bytes → Result Bytes Bytes → W → Tally → Tally × W
  handle_result was_fuzzed original (ok []) w c = (count_other c, w)
  handle_result was_fuzzed original (ok (b ∷ h)) w c = (count_success c, w)
  handle_result was_fuzzed original (err msg) w c =
      let c' = categorize_error msg c in
      let (r, w') = handle_fallback_broadcast w original in
      if was_fuzzed && contains msg (codes "out of gas")
      then (after_fallback r c', w')
      else (categorize_error msg c', w)

  -- `if gasFuzzer != nil { … }`
  abbrev pub fuzz_if : Option F → Bytes → (Bytes × Bool) × Option F
  fuzz_if none tx = ((tx, false), none)
  fuzz_if (some f) tx = let (r, f') = fuzz f tx in (r, some f')

  -- One transaction of the block.
  unfoldable pub broadcast_one : Bytes → W → Option F → Tally → Tally × W × Option F
  unfolding categorize_error handle_fallback_broadcast
  broadcast_one original w f c =
      let ((tx, was_fuzzed), f') = fuzz_if f original in
      let (r, w') = broadcast_func w tx in
      let (c', w'') = handle_result was_fuzzed original r w' (count_fuzzed was_fuzzed c) in
      (c', w'', f')

  -- The transactions of a block, one after the other.
  unfoldable pub broadcast_block : List Bytes → W → Option F → Tally → Tally × W × Option F
  broadcast_block [] w f c = (c, w, f)
  broadcast_block (tx ∷ txs) w f c =
      let (c', w', f') = broadcast_one tx w f c in broadcast_block txs w' f' c'
