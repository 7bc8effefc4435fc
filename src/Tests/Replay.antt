-- ===== src/Tests/Replay.antt =====
-- Replaying: the fuzzer, a block and the sniffer on small inputs.
use chain_stresser.Common.{
  ℕ, suc, ◌+◌, ◌*◌, ◌%◌, ◌<◌, ◌≡◌, refl, Bool, true, false, none, some, List, [], ◌∷◌, ◌==◌,
  if◌then◌else◌, Result, ok, err, length,
}
use chain_stresser.Common.Bytes.{Bytes, codes}
use chain_stresser.Common.Int.{ℤ, pos}
use chain_stresser.Replay.Block.{no_counts, broadcast_block}
use chain_stresser.Replay.Block.Counters.{errors}
use chain_stresser.Replay.Block.Order.{send_each, successes, empties, failures, unfuzzed_block}
use chain_stresser.Replay.Fuzzer.{Random, Codec, GasFuzzingConfig, GasFuzzer, new_gas_fuzzer}
use chain_stresser.Replay.Sniffer.{TxReplayConfig, Block, Channels}
use chain_stresser.Tests.Instances.{whole_floats}

-- A node that takes a transaction that begins with 1, gives no hash for one that begins with 2, and
-- is out of gas for any other one; it counts what it gets.
abbrev node : ℕ → Bytes → Result Bytes Bytes × ℕ
node w [] = (ok [], suc w)
node w (c ∷ tx) =
    (if c == 1 then ok (c ∷ tx) else if c == 2 then ok [] else err (codes "out of gas"), suc w)

-- A fuzzer that puts a 3 in front of every second transaction.
abbrev fuzz : ℕ → Bytes → (Bytes × Bool) × ℕ
fuzz f tx = (if f % 2 == 0 then (3 ∷ tx, true) else (tx, false), suc f)

abbrev block : List Bytes
block = (1 ∷ []) ∷ (2 ∷ []) ∷ (3 ∷ []) ∷ []

unfuzzed_block_example :
    let (c, w', f) = broadcast_block node fuzz block 0 none no_counts in
    let (rs, w'') = send_each node fuzz block 0 in
    (w' ≡ w'') × (c.success_count ≡ successes rs) × (errors c ≡ 2 * failures rs + empties rs)
unfuzzed_block_example = unfuzzed_block node fuzz block 0

zero-lt : (n : ℕ) (r : ℕ) → 0 < n → 0 < n
zero-lt n r h = h

abbrev no_random : Random ℤ
no_random = record {
  Rng = ℕ;
  new_rand = λ s. 0;
  intn = λ n r. (0, suc r);
  float_64 = λ r. (pos 0, suc r);
  intn-lt = zero-lt;
}

-- A transaction is its bytes; its gas limit is their number.
abbrev plain_codec : Codec
plain_codec = record {
  Tx = Bytes;
  Coins = ℕ;
  Msg = ℕ;
  Sig = ℕ;
  decode = λ b. some b;
  get_msgs = λ b. b;
  fee_tx = λ b. some (record { gas_limit = length b; fee = 1; fee_granter = []; fee_payer = [] });
  memo_tx = λ b. none;
  timeout_tx = λ b. some 5;
  sig_tx = λ b. some none;
  accepts_msgs = λ m. true;
  accepts_signatures = λ s. true;
  encode = λ b. b.gas ∷ b.msgs;
}

abbrev boundary_config : ℤ → GasFuzzingConfig ℤ
boundary_config percentage = record {
  enabled = true;
  strategy = "boundary";
  gas_limit_multiplier_min = pos 1;
  gas_limit_multiplier_max = pos 3;
  seed = pos 1;
  fuzz_percentage = percentage;
  verbose_logging = false;
}

abbrev fuzzer : GasFuzzer ℤ ℕ
fuzzer = record { config = boundary_config (pos 100); rng = 0; tx_counter = 0 }

made_from_zero :
    new_gas_fuzzer whole_floats no_random (pos 7) (boundary_config (pos 0)) ≡ some fuzzer
unfolding new_gas_fuzzer
made_from_zero = refl

-- Two blocks, of which the replay takes the first before the sniffer is done.
abbrev config : TxReplayConfig
config = record { start_height = 4; end_height = 6 }

abbrev chain : ℕ → Block
chain h = (h ∷ []) ∷ [] ∷ []

abbrev before_last : Channels ℕ
before_last = record {
  height = 6;
  blocks = chain 5 ∷ [];
  error = none;
  closed = true;
  sent = (4 ∷ []) ∷ [];
  returned = false;
}
