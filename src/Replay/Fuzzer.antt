-- ===== src/Replay/Fuzzer.antt =====
-- replay/fuzzer.go, and `fuzzTransactions` of stresser.go. math/rand and the transaction codec of the
-- Cosmos SDK are parameters.
pub mod Strategy
pub mod Faithful
use chain_stresser.Common.{
  ℕ, suc, ◌+◌, ◌%◌, ◌<◌, ◌≡◌, Bool, true, false, not, ◌&&◌, Option, none, some, List, [], ◌∷◌, ◌==◌,
  if◌then◌else◌, String, ltb, arith,
}
use text.Mathlib.Text.{◌==◌ as str_eq}
use chain_stresser.Common.Bytes.{Bytes}
use chain_stresser.Common.Int.{ℤ, pos, ltb_ℤ}
use chain_stresser.Common.Float.{Floats}

-- `rand.Rand`: `Intn(n)` is below `n`.
pub record Random (F : Type 0) : Type 1 where
  pub Rng : Type 0
  pub new_rand : ℤ → Rng
  pub intn : ℕ → Rng → ℕ × Rng
  pub float_64 : Rng → F × Rng
  pub intn-lt : (n : ℕ) (r : Rng) → 0 < n → (intn n r).0 < n

-- What a fee transaction shows: gas limit, fee, granter and payer.
pub record FeeInfo (Coins : Type 0) : Type 0 where
  pub gas_limit : ℕ
  pub fee : Coins
  pub fee_granter : Bytes
  pub fee_payer : Bytes

-- What has been set on a transaction builder; `none` and `[]` are what a new one has.
pub record Built (Coins Msg Sig : Type 0) : Type 0 where
  pub msgs : List Msg
  pub gas : ℕ
  pub fee_amount : Coins
  pub granter : Option Bytes
  pub payer : Option Bytes
  pub memo : Bytes
  pub timeout_height : ℕ
  pub signatures : List Sig

-- The codec. An interface that a transaction does not implement is `none`; the signatures can also
-- fail to be read. The builder can refuse messages and signatures.
pub record Codec : Type 1 where
  pub Tx : Type 0
  pub Coins : Type 0
  pub Msg : Type 0
  pub Sig : Type 0
  pub decode : Bytes → Option Tx
  pub get_msgs : Tx → List Msg
  pub fee_tx : Tx → Option (FeeInfo Coins)
  pub memo_tx : Tx → Option Bytes
  pub timeout_tx : Tx → Option ℕ
  pub sig_tx : Tx → Option (Option (List Sig))
  pub accepts_msgs : List Msg → Bool
  pub accepts_signatures : List Sig → Bool
  pub encode : Built Coins Msg Sig → Bytes

pub record GasFuzzingConfig (F : Type 0) : Type 0 where
  pub enabled : Bool
  pub strategy : String
  pub gas_limit_multiplier_min : F
  pub gas_limit_multiplier_max : F
  pub seed : ℤ
  pub fuzz_percentage : ℤ
  pub verbose_logging : Bool

pub record GasFuzzer (F R : Type 0) : Type 0 where
  pub config : GasFuzzingConfig F
  pub rng : R
  pub tx_counter : ℕ

abbrev pub is_zero : ℤ → Bool
is_zero i = not (ltb_ℤ i (pos 0)) && not (ltb_ℤ (pos 0) i)

unfoldable pub same_bytes : Bytes → Bytes → Bool
same_bytes [] [] = true
same_bytes [] (y ∷ b) = false
same_bytes (x ∷ a) [] = false
same_bytes (x ∷ a) (y ∷ b) = x == y && same_bytes a b

module _ (fl : Floats) (rand : Random fl.Float) where
  open fl use {Float, zero_f, of_u64, eqb_f, add_f, sub_f, mul_f, div_f, trunc_u64}
  open rand use {Rng, new_rand, intn, float_64}

  -- 0.5 and 5.0
  abbrev pub default_min : Float
  default_min = div_f (of_u64 1) (of_u64 2)

  abbrev pub default_max : Float
  default_max = of_u64 5

  unfoldable pub with_defaults : GasFuzzingConfig Float → GasFuzzingConfig Float
  with_defaults c = record c {
    gas_limit_multiplier_min =
        if eqb_f c.gas_limit_multiplier_min zero_f then default_min else c.gas_limit_multiplier_min;
    gas_limit_multiplier_max =
        if eqb_f c.gas_limit_multiplier_max zero_f then default_max else c.gas_limit_multiplier_max;
    fuzz_percentage = if is_zero c.fuzz_percentage then pos 100 else c.fuzz_percentage;
    strategy = if str_eq c.strategy "" then "random" else c.strategy;
  }

  -- `now` is the clock, which seeds the fuzzer unless the configuration does.
  unfoldable pub new_gas_fuzzer : ℤ → GasFuzzingConfig Float → Option (GasFuzzer Float Rng)
  unfolding with_defaults
  new_gas_fuzzer now c =
      if not c.enabled
      then none
      else some (record {
        config = with_defaults c;
        rng = new_rand (if is_zero c.seed then now else c.seed);
        tx_counter = 0;
      })

  -- uint64(float64(gasLimit) * gasMultiplier)
  abbrev pub scale_gas : ℕ → Float → ℕ
  scale_gas gas_limit m = trunc_u64 (mul_f (of_u64 gas_limit) m)

  unfoldable pub random_fuzzing : GasFuzzer Float Rng → ℕ → ℕ × GasFuzzer Float Rng
  random_fuzzing f gas_limit =
      let (x, rng') = float_64 f.rng in
      let lo = f.config.gas_limit_multiplier_min in
      let hi = f.config.gas_limit_multiplier_max in
      (scale_gas gas_limit (add_f lo (mul_f x (sub_f hi lo))), record f { rng = rng' })

  unfoldable pub boundary_fuzzing : GasFuzzer Float Rng → ℕ → ℕ
  boundary_fuzzing f gas_limit = scale_gas gas_limit (
      if f.tx_counter % 2 == 0
      then f.config.gas_limit_multiplier_min
      else f.config.gas_limit_multiplier_max)

  unfoldable pub apply_fuzzing_strategy : GasFuzzer Float Rng → ℕ → ℕ × GasFuzzer Float Rng
  unfolding random_fuzzing boundary_fuzzing
  apply_fuzzing_strategy f gas_limit =
      if str_eq f.config.strategy "random"
      then random_fuzzing f gas_limit
      else if str_eq f.config.strategy "boundary"
      then (boundary_fuzzing f gas_limit, f)
      else random_fuzzing f gas_limit

  module _ (codec : Codec) where
    open codec use {
      Tx, Coins, Msg, Sig, decode, get_msgs, fee_tx, memo_tx, timeout_tx, sig_tx, accepts_msgs,
      accepts_signatures, encode,
    }

    -- `if len(b) > 0 { txBuilder.Set…(b) }`
    abbrev pub if_given : Bytes → Option Bytes
    if_given [] = none
    if_given (c ∷ b) = some (c ∷ b)

    abbrev pub copied_granter : Option (FeeInfo Coins) → Option Bytes
    copied_granter none = none
    copied_granter (some i) = if_given i.fee_granter

    abbrev pub copied_payer : Option (FeeInfo Coins) → Option Bytes
    copied_payer none = none
    copied_payer (some i) = if_given i.fee_payer

    abbrev pub copied_memo : Option Bytes → Bytes
    copied_memo none = []
    copied_memo (some m) = m

    abbrev pub copied_timeout : Option ℕ → ℕ
    copied_timeout none = 0
    copied_timeout (some h) = h

    abbrev pub copied_signatures : Option (Option (List Sig)) → List Sig
    copied_signatures none = []
    copied_signatures (some none) = []
    copied_signatures (some (some sigs)) = if accepts_signatures sigs then sigs else []

    unfoldable pub create_fuzzed_transaction : Tx → ℕ → Coins → Option (Built Coins Msg Sig)
    create_fuzzed_transaction tx gas_limit fee =
        if not (accepts_msgs (get_msgs tx))
        then none
        else some (record {
          msgs = get_msgs tx;
          gas = gas_limit;
          fee_amount = fee;
          granter = copied_granter (fee_tx tx);
          payer = copied_payer (fee_tx tx);
          memo = copied_memo (memo_tx tx);
          timeout_height = copied_timeout (timeout_tx tx);
          signatures = copied_signatures (sig_tx tx);
        })

    -- The fuzzed text, or the original one.
    abbrev pub encoded : Bytes → Option (Built Coins Msg Sig) → Bytes
    encoded tx_bytes none = tx_bytes
    encoded tx_bytes (some b) = encode b

    abbrev pub fuzz_fee_tx :
        Bytes → Tx → Option (FeeInfo Coins) → GasFuzzer Float Rng → Bytes × GasFuzzer Float Rng
    fuzz_fee_tx tx_bytes tx none f = (tx_bytes, f)
    fuzz_fee_tx tx_bytes tx (some i) f =
        let (gas, f') = apply_fuzzing_strategy f i.gas_limit in
        (encoded tx_bytes (create_fuzzed_transaction tx gas i.fee), f')

    abbrev pub fuzz_decoded : Bytes → Option Tx → GasFuzzer Float Rng → Bytes × GasFuzzer Float Rng
    fuzz_decoded tx_bytes none f = (tx_bytes, f)
    fuzz_decoded tx_bytes (some tx) f = fuzz_fee_tx tx_bytes tx (fee_tx tx) f

    -- `FuzzTransaction`; it never returns an error.
    unfoldable pub fuzz_transaction : Bytes → GasFuzzer Float Rng → Bytes × GasFuzzer Float Rng
    unfolding apply_fuzzing_strategy create_fuzzed_transaction
    fuzz_transaction tx_bytes f =
        let (n, rng') = intn 100 f.rng in
        if not f.config.enabled
        then (tx_bytes, f)
        else if not (ltb_ℤ (pos n) f.config.fuzz_percentage)
        then (tx_bytes, record f { rng = rng' })
        else fuzz_decoded tx_bytes (decode tx_bytes)
            (record f { rng = rng'; tx_counter = suc f.tx_counter })

    -- `fuzzTransactions`, without its logging: the bytes, and whether they were modified.
    unfoldable pub fuzz_transactions :
        Bytes → Option (GasFuzzer Float Rng) → (Bytes × Bool) × Option (GasFuzzer Float Rng)
    unfolding fuzz_transaction
    fuzz_transactions tx_bytes none = ((tx_bytes, false), none)
    fuzz_transactions tx_bytes (some f) =
        let (fuzzed, f') = fuzz_transaction tx_bytes f in
        if same_bytes fuzzed tx_bytes
        then ((tx_bytes, false), some f')
        else ((fuzzed, true), some f')
