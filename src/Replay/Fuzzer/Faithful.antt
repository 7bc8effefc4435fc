-- ===== src/Replay/Fuzzer/Faithful.antt =====
-- replay/fuzzer.go: what `FuzzTransaction` keeps of a transaction, and `fuzzTransactions` of stresser.go.
use chain_stresser.Common.{
  ℕ, ◌≡◌, ◌≢◌, refl, ap, true, false, Option, none, some, [], ◌∷◌, arith, Bool-cases, inl, inr, ◌⊎◌,
}
use chain_stresser.Common.Bytes.{Bytes}
use chain_stresser.Common.Float.{Floats}
use chain_stresser.Replay.Fuzzer.{
  Random, Codec, FeeInfo, Built, GasFuzzer, fuzz_transaction, if_given, same_bytes,
  fuzz_transactions,
}

same_bytes_refl : (a : Bytes) → same_bytes a a ≡ true
unfolding same_bytes
same_bytes_refl [] = refl
same_bytes_refl (x ∷ a) = ground (arith, same_bytes_refl a)

same_bytes-eq : (a b : Bytes) → same_bytes a b ≡ true → a ≡ b
unfolding same_bytes
same_bytes-eq [] [] h = refl
same_bytes-eq [] (y ∷ b) h = absurd (cc)
same_bytes-eq (x ∷ a) [] h = absurd (cc)
same_bytes-eq (x ∷ a) (y ∷ b) h = ground (arith, same_bytes-eq a b)

differ : (a b : Bytes) → same_bytes a b ≡ false → a ≢ b
differ a b h e = absurd (cc (h, same_bytes_refl b, ap (λ x. same_bytes x b) e))

module _ (fl : Floats) (rand : Random fl.Float) (codec : Codec) where
  open fl use {Float}
  open rand use {Rng, intn}
  open codec use {
    Tx, Coins, Msg, Sig, decode, fee_tx, get_msgs, memo_tx, timeout_tx, sig_tx, encode,
  }

  -- `b` has the messages, memo and time-out height of `tx`, and the fee, granter and payer of `i`.
  pub record IsCopy (tx : Tx) (i : FeeInfo Coins) (b : Built Coins Msg Sig) : Type 0 where
    pub same_msgs : b.msgs ≡ get_msgs tx
    pub same_fee : b.fee_amount ≡ i.fee
    pub same_granter : b.granter ≡ if_given fl rand codec i.fee_granter
    pub same_payer : b.payer ≡ if_given fl rand codec i.fee_payer
    pub same_memo : (m : Bytes) → memo_tx tx ≡ some m → b.memo ≡ m
    pub same_timeout : (h : ℕ) → timeout_tx tx ≡ some h → b.timeout_height ≡ h

  -- The bytes are the original ones, or encode a copy of the transaction with another gas limit.
  abbrev pub IsGasChange : Bytes → Bytes → Type 0
  IsGasChange original out =
      (out ≡ original)
      ⊎ ((tx : Tx) × (i : FeeInfo Coins) × (b : Built Coins Msg Sig) × (decode original ≡ some tx)
          × (fee_tx tx ≡ some i)
          × IsCopy tx i b
          × (out ≡ encode b))

  -- `fuzzTransactions` reports a transaction as fuzzed exactly if its bytes are not the original ones.
  pub fuzz_transactions-flag :
      (original : Bytes) (f : Option (GasFuzzer Float Rng))
      → let ((out, was_fuzzed), _) = fuzz_transactions fl rand codec original f in
        ((was_fuzzed ≡ true) × (out ≢ original)) ⊎ ((was_fuzzed ≡ false) × (out ≡ original))
  unfolding fuzz_transactions
  fuzz_transactions-flag original none = inr (refl, refl)
  fuzz_transactions-flag original (some f) =
      let out = (fuzz_transaction fl rand codec original f).0 in
      elim (Bool-cases (same_bytes out original)) [
        | inl same ↦ rw same (inr (refl, refl))
        | inr other ↦ rw other (inl (refl, differ out original other))
      ]
