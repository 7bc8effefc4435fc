-- ===== src/Stress/Pipeline/Complete.antt =====
-- stresser.go: what the collector stores, and what the table holds when it is done.
use chain_stresser.Common.{
  ℕ, ◌+◌, ◌*◌, ◌<◌, ◌≡◌, refl, ap, Option, none, some, List, [], ◌∷◌, arith, length,
}
use chain_stresser.Common.Bytes.{Bytes}
use chain_stresser.Common.Sums.{sum_below-le, sum_below_full}
use chain_stresser.Stress.Pipeline.{Provider, Sizes, Pipe, Reach}
use chain_stresser.Stress.Pipeline.Counts.{count_at, filled}
use chain_stresser.Stress.Pipeline.Invariant.{reachable-Invariant}

length-zero : {A : Type 0} (xs : List A) → length xs ≡ 0 → xs ≡ []
length-zero [] h = refl
length-zero (x ∷ xs) h = absurd (omega arith)

empty : (o : Option Bytes) → filled o ≡ 0 → o ≡ none
empty none h = refl
empty (some b) h = absurd (omega arith)

holds :
    (o : Option Bytes) (b : Bytes)
    → filled o ≡ 1
    → ((b' : Bytes) → o ≡ some b' → b' ≡ b)
    → o ≡ some b
holds none b h eq = absurd (omega arith)
holds (some c) b h eq = ap some (eq c refl)

module _ (pr : Provider) (sz : Sizes) (initial : ℕ → ℕ) where
  open pr use {Tx, from_idx, tx_idx, bytes, sign_tx}
  open sz use {accounts, num}

  -- The transaction that the collector takes next has its own cell, inside the table and empty: the
  -- store neither panics on an index nor overwrites a transaction.
  pub collect_in_range :
      {p : Pipe pr sz initial} (t : Tx) (ts : List Tx)
      → Reach pr sz initial p
      → p.signed_queue ≡ t ∷ ts
      → (from_idx t < accounts) × (tx_idx t < num) × (p.table (from_idx t) (tx_idx t) ≡ none)
  unfolding count_at
  collect_in_range {p} t ts r e =
      let inv = reachable-Invariant pr sz initial r in
      let i = from_idx t in
      let j = tx_idx t in
      let here = ap (count_at pr i j) e in
      let once = inv.once i j in
      (
        ground (arith, inv.next_out i, inv.next_le i),
        ground (arith, inv.next_out i, inv.next_le i),
        empty (p.table i j) (ground arith),
      )

  -- When the collector has counted `accounts * num` transactions, nothing is left in a queue or with
  -- a signer, and each cell of the table holds the bytes of its own transaction, generated with the
  -- account's initial sequence plus the transaction's index, and signed.
  pub collected_all :
      {p : Pipe pr sz initial} (i j : ℕ)
      → Reach pr sz initial p
      → p.collected ≡ accounts * num
      → i < accounts
      → j < num
      → (p.tx_queue ≡ [])
        × (p.signing ≡ [])
        × (p.signed_queue ≡ [])
        × (p.table i j ≡ some (bytes (sign_tx (pr.generate_tx i j (initial i + j)))))
  unfolding count_at
  collected_all {p} i j r e hi hj =
      let inv = reachable-Invariant pr sz initial r in
      let most = sum_below-le accounts p.next num inv.next_le in
      let no_queue = length-zero p.tx_queue (omega (arith, inv.total)) in
      let no_signing = length-zero p.signing (omega (arith, inv.total)) in
      let no_signed = length-zero p.signed_queue (omega (arith, inv.total)) in
      let full = sum_below_full accounts p.next num inv.next_le (omega (arith, inv.total)) i hi in
      let here : filled (p.table i j) ≡ 1 = ground (
        arith,
        inv.once i j,
        ap (count_at pr i j) no_queue,
        ap (count_at pr i j) no_signing,
        ap (count_at pr i j) no_signed,
      ) in
      (no_queue, no_signing, no_signed, holds (p.table i j) _ here (inv.stored i j))
