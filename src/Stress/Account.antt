-- ===== src/Stress/Account.antt =====
-- stresser.go, `Stress`: the loop that broadcasts the transactions of one account. The broadcast is
-- an operation on the state of the world behind it.
pub mod Index
pub mod Catchup
use chain_stresser.Common.{
  ℕ, zero, suc, ◌+◌, ◌≡◌, Option, none, some, List, [], ◌∷◌, Result, ok, err, get_elem?, length,
  if◌then◌else◌, Bool, true, false,
}
use chain_stresser.Common.Bytes.{Bytes}
use chain_stresser.Common.Int.{ℤ, pos, negsuc, ltb_ℤ, to_int, sub_u64}
use chain_stresser.Stress.Client.{BroadcastError, expected_sequence}

-- How the goroutine of an account ends. An index outside the slice panics; `out_of_fuel` is the
-- model's own.
pub data Finish : Type 0 where
  finished : Finish
  failed : BroadcastError → Finish
  index_panic : Finish
  out_of_fuel : Finish

-- `int(expectedAccSeq - initialSequence)`, a subtraction of two `uint64`.
unfoldable pub next_index : ℕ → ℕ → ℤ
next_index expected initial = to_int (sub_u64 expected initial)

-- `accountTxs[txIndex]`
abbrev pub at_index {ℓ} : {A : Type ℓ} → List A → ℤ → Option A
at_index txs (pos n) = get_elem? txs n
at_index txs (negsuc n) = none

-- `txIndex++`
abbrev pub increment : ℤ → ℤ
increment (pos n) = pos (suc n)
increment (negsuc zero) = pos 0
increment (negsuc (suc n)) = negsuc n

-- What the loop does after a broadcast: end with an error, or go on at an index.
unfoldable pub after_broadcast : ℕ → ℤ → Result BroadcastError Bytes → Result BroadcastError ℤ
after_broadcast initial i (ok tx_hash) = ok (increment i)
after_broadcast initial i (err e) = elim (expected_sequence e) [
  | some expected ↦ ok (next_index expected initial)
  | none ↦ err e
]

module _ {W T : Type 0} (broadcast : W → T → Result BroadcastError Bytes × W) where
  -- `for txIndex := 0; txIndex < config.NumOfTransactions; { … }` from any index, over fuel.
  unfoldable pub account_loop : ℕ → ℕ → ℕ → List T → ℤ → W → Finish × W
  account_loop zero num initial txs i w = (out_of_fuel, w)
  account_loop (suc fuel) num initial txs i w =
      let go_on = account_loop fuel num initial txs in
      if ltb_ℤ i (pos num)
      then elim (at_index txs i) [
        | none ↦ (index_panic, w)
        | some tx ↦
            let (r, w') = broadcast w tx in
            elim (after_broadcast initial i r) [ ok i' ↦ go_on i' w' | err e ↦ (failed e, w') ]
      ]
      else (finished, w)
