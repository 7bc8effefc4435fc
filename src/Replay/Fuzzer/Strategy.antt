-- ===== src/Replay/Fuzzer/Strategy.antt =====
-- replay/fuzzer.go: which transactions are fuzzed, and with which multiplier.
use chain_stresser.Common.{
  ℕ, suc, ◌+◌, ◌%◌, ◌≡◌, refl, ap, ◌∙◌, Bool, true, false, not, Option, none, some, List, [], ◌∷◌,
  ◌==◌, if◌then◌else◌, arith, length, Bool-cases, inl, inr,
}
use chain_stresser.Common.Bytes.{Bytes}
use chain_stresser.Common.Int.{ℤ, pos, ltb_ℤ, ◌≤ℤ◌}
use chain_stresser.Common.Float.{Floats}
use chain_stresser.Replay.Fuzzer.{
  Random, Codec, FeeInfo, GasFuzzingConfig, GasFuzzer, new_gas_fuzzer, random_fuzzing,
  apply_fuzzing_strategy, fuzz_transaction, fuzz_decoded, fuzz_fee_tx, boundary_fuzzing, scale_gas,
}

swap_parity :
    {A : Type 0} (n m : ℕ) (x y : A)
    → m ≡ suc n
    → (if m % 2 == 0 then x else y) ≡ (if n % 2 == 0 then y else x)
swap_parity n m x y h = ground arith

selected_branch :
    {A : Type 0} (on skip : Bool) (x y z : A)
    → on ≡ true
    → skip ≡ false
    → (if not on then x else if skip then y else z) ≡ z
selected_branch on skip x y z h k = rw (h, k)

module _ (fl : Floats) (rand : Random fl.Float) (codec : Codec) where
  open fl use {Float}
  open rand use {Rng, intn, intn-lt}
  open codec use {Tx, Coins, fee_tx, decode}

  -- A list of transactions, one after the other.
  unfoldable pub fuzz_all : List Bytes → GasFuzzer Float Rng → List Bytes × GasFuzzer Float Rng
  fuzz_all [] f = ([], f)
  fuzz_all (tx ∷ txs) f =
      let (b, f') = fuzz_transaction fl rand codec tx f in
      let (bs, f'') = fuzz_all txs f' in (b ∷ bs, f'')

  -- A step of the fuzzer that keeps its configuration and sets its counter.
  abbrev HasCounted : ℕ → GasFuzzer Float Rng → GasFuzzer Float Rng → Type 0
  HasCounted n f g = (g.tx_counter ≡ f.tx_counter + n) × (g.config ≡ f.config)

  strategy-HasCounted :
      (f : GasFuzzer Float Rng) (gas : ℕ) → HasCounted 0 f (apply_fuzzing_strategy fl rand f gas).1
  unfolding apply_fuzzing_strategy random_fuzzing
  strategy-HasCounted f gas = (ground arith, ground arith)

  fee_tx-HasCounted :
      (tx_bytes : Bytes) (tx : Tx) (o : Option (FeeInfo Coins)) (f : GasFuzzer Float Rng)
      → HasCounted 0 f (fuzz_fee_tx fl rand codec tx_bytes tx o f).1
  fee_tx-HasCounted tx_bytes tx none f = (omega arith, refl)
  fee_tx-HasCounted tx_bytes tx (some i) f = strategy-HasCounted f i.gas_limit

  decoded-HasCounted :
      (tx_bytes : Bytes) (o : Option Tx) (f : GasFuzzer Float Rng)
      → HasCounted 0 f (fuzz_decoded fl rand codec tx_bytes o f).1
  decoded-HasCounted tx_bytes none f = (omega arith, refl)
  decoded-HasCounted tx_bytes (some tx) f = fee_tx-HasCounted tx_bytes tx (fee_tx tx) f

  all_selected :
      (f : GasFuzzer Float Rng)
      → pos 100 ≤ℤ f.config.fuzz_percentage
      → not (ltb_ℤ (pos (intn 100 f.rng).0) f.config.fuzz_percentage) ≡ false
  all_selected f h = ground (arith, intn-lt 100 f.rng (omega arith))

  fuzz_transaction-selected :
      (tx : Bytes) (f : GasFuzzer Float Rng)
      → f.config.enabled ≡ true
      → pos 100 ≤ℤ f.config.fuzz_percentage
      → fuzz_transaction fl rand codec tx f
        ≡ fuzz_decoded fl rand codec tx
            (decode tx)
            (record f { rng = (intn 100 f.rng).1; tx_counter = suc f.tx_counter })
  unfolding fuzz_transaction
  fuzz_transaction-selected tx f on h = selected_branch _ _ _ _ _ on (all_selected f h)

  fuzz_transaction-HasCounted :
      (tx : Bytes) (f : GasFuzzer Float Rng)
      → f.config.enabled ≡ true
      → pos 100 ≤ℤ f.config.fuzz_percentage
      → HasCounted 1 f (fuzz_transaction fl rand codec tx f).1
  fuzz_transaction-HasCounted tx f on h = rw (fuzz_transaction-selected tx f on h) (
      let (c, k) =
        decoded-HasCounted tx (decode tx)
          (record f { rng = (intn 100 f.rng).1; tx_counter = suc f.tx_counter }) in
      (omega (arith, c), k))

  fuzz_all-HasCounted :
      (txs : List Bytes) (f : GasFuzzer Float Rng)
      → f.config.enabled ≡ true
      → pos 100 ≤ℤ f.config.fuzz_percentage
      → HasCounted (length txs) f (fuzz_all txs f).1
  unfolding fuzz_all
  fuzz_all-HasCounted [] f on h = (omega arith, refl)
  fuzz_all-HasCounted (tx ∷ txs) f on h =
      let (c, k) = fuzz_transaction-HasCounted tx f on h in
      let (c', k') =
        fuzz_all-HasCounted txs (fuzz_transaction fl rand codec tx f).1 (rw k on) (rw k h) in
      (omega (arith, c, c'), k' ∙ k)

  new_gas_fuzzer-zero :
      (now : ℤ) (c : GasFuzzingConfig Float) (f : GasFuzzer Float Rng)
      → new_gas_fuzzer fl rand now c ≡ some f
      → c.fuzz_percentage ≡ pos 0
      → (f.config.enabled ≡ true) × (f.config.fuzz_percentage ≡ pos 100) × (f.tx_counter ≡ 0)
  unfolding new_gas_fuzzer
  new_gas_fuzzer-zero now c f made zero_p = elim (Bool-cases c.enabled) [
    | inl on ↦ ground arith
    | inr off ↦ ground arith
  ]

  -- A percentage of 0 fuzzes everything: a fuzzer that is made with it selects every transaction that
  -- it is given, whatever the random numbers are.
  pub zero_percentage :
      (now : ℤ) (c : GasFuzzingConfig Float) (f : GasFuzzer Float Rng) (txs : List Bytes)
      → new_gas_fuzzer fl rand now c ≡ some f
      → c.fuzz_percentage ≡ pos 0
      → (fuzz_all txs f).1.tx_counter ≡ length txs
  zero_percentage now c f txs made zero_p =
      let (on, all, start) = new_gas_fuzzer-zero now c f made zero_p in
      let (counted, _) = fuzz_all-HasCounted txs f on (rw all (omega arith)) in
      omega (arith, counted, start)

  boundary-eq :
      (f : GasFuzzer Float Rng) (gas : ℕ)
      → f.config.strategy ≡ "boundary"
      → (apply_fuzzing_strategy fl rand f gas).0
        ≡ scale_gas fl rand gas (
            if f.tx_counter % 2 == 0
            then f.config.gas_limit_multiplier_min
            else f.config.gas_limit_multiplier_max)
  unfolding apply_fuzzing_strategy boundary_fuzzing
  boundary-eq f gas h = rw h

  -- With the boundary strategy, and every transaction selected, the two multipliers are taken in
  -- turn: after `n` transactions the next gas limit is scaled by the maximum if `n` is even, and by
  -- the minimum if it is odd.
  pub boundary_alternates :
      (f : GasFuzzer Float Rng) (txs : List Bytes) (gas : ℕ)
      → f.config.enabled ≡ true
      → f.config.strategy ≡ "boundary"
      → pos 100 ≤ℤ f.config.fuzz_percentage
      → f.tx_counter ≡ 0
      → let g = (fuzz_all txs f).1 in
        (apply_fuzzing_strategy fl rand (record g { tx_counter = suc g.tx_counter }) gas).0
        ≡ scale_gas fl rand gas (
            if length txs % 2 == 0
            then f.config.gas_limit_multiplier_max
            else f.config.gas_limit_multiplier_min)
  boundary_alternates f txs gas on strategy h start =
      let g = (fuzz_all txs f).1 in
      let (c, k) = fuzz_all-HasCounted txs f on h in
      boundary-eq (record g { tx_counter = suc g.tx_counter }) gas (rw k strategy)
      ∙ rw k (
          ap (scale_gas fl rand gas)
            (swap_parity (length txs) (suc g.tx_counter) _ _ (omega (arith, c, start))))
