-- ===== src/Stress/Account/Catchup.antt =====
-- stresser.go: the account loop against a node that keeps the account's sequence.
use native.Mathlib.Nat.{add-zero}
use chain_stresser.Common.{
  ℕ, zero, suc, ◌+◌, ◌-◌, ◌^◌, ◌≤◌, ◌<◌, ◌≡◌, ◌≢◌, refl, sym, ◌∙◌, some, List, [], ◌∷◌, Result, ok,
  err, arith, get_elem?, length, ◌==◌, Bool-cases, ==_iff, inl, inr,
}
use chain_stresser.Common.Bytes.{Bytes}
use chain_stresser.Common.Int.{ℤ, pos, negsuc}
use chain_stresser.Stress.Client.{BroadcastError, expected_sequence}
use chain_stresser.Stress.Account.{finished, index_panic, next_index, after_broadcast, account_loop}
use chain_stresser.Stress.Account.Index.{next_index-ahead, next_index-behind}

-- A node that holds the account's next sequence: it takes a transaction with that sequence and
-- counts up, and turns down any other with an error that names the one it expects.
pub record KeepsSequence {W T : Type 0} (broadcast : W → T → Result BroadcastError Bytes × W)
    : Type 0 where
  pub seq : W → ℕ
  pub sequence_of : T → ℕ
  pub accepts :
      (w : W) (tx : T)
      → sequence_of tx ≡ seq w
      → (h : Bytes) × ((broadcast w tx).0 ≡ ok h) × (seq (broadcast w tx).1 ≡ suc (seq w))
  pub rejects :
      (w : W) (tx : T)
      → sequence_of tx ≢ seq w
      → (e : BroadcastError) × ((broadcast w tx).0 ≡ err e)
        × (expected_sequence e ≡ some (seq w))
        × (seq (broadcast w tx).1 ≡ seq w)

after_mismatch :
    (initial : ℕ) (i : ℤ) (e : BroadcastError) {s : ℕ}
    → expected_sequence e ≡ some s
    → after_broadcast initial i (err e) ≡ ok (next_index s initial)
unfolding after_broadcast
after_mismatch initial i e h = rw (h, after_broadcast)

module _ {W T : Type 0} (broadcast : W → T → Result BroadcastError Bytes × W)
    (node : KeepsSequence broadcast) where
  open node use {seq, sequence_of, accepts, rejects}

  -- The transactions carry the sequences from `s` on, as they were generated.
  abbrev pub NumberedFrom : ℕ → List T → Type 0
  NumberedFrom s [] = Unit
  NumberedFrom s (tx ∷ txs) = (sequence_of tx ≡ s) × NumberedFrom (suc s) txs

  numbered_at :
      (s : ℕ) (txs : List T) (i : ℕ)
      → NumberedFrom s txs
      → i < length txs
      → (tx : T) × (get_elem? txs i ≡ some tx) × (sequence_of tx ≡ s + i)
  numbered_at s [] i h lt = elim lt [ ]
  numbered_at s (tx ∷ txs) zero h lt = (tx, refl, omega arith)
  numbered_at s (tx ∷ txs) (suc i) h lt =
      let (tx', e, q) = numbered_at (suc s) txs i h.1 (omega arith) in (tx', e, omega arith)

  -- One round of the loop at an index below the number of transactions.
  round_lem :
      (fuel num initial : ℕ) (txs : List T) (i : ℕ) (w : W) (tx : T) (i' : ℤ)
      → i < num
      → get_elem? txs i ≡ some tx
      → after_broadcast initial (pos i) (broadcast w tx).0 ≡ ok i'
      → account_loop broadcast (suc fuel) num initial txs (pos i) w
        ≡ account_loop broadcast fuel num initial txs i' (broadcast w tx).1
  unfolding account_loop
  round_lem fuel num initial txs i w tx i' lt at next = ground arith

  -- At the end of the transactions, or past it.
  past_end :
      (fuel num initial : ℕ) (txs : List T) (i : ℕ) (w : W)
      → num ≤ i
      → account_loop broadcast (suc fuel) num initial txs (pos i) w ≡ (finished, w)
  unfolding account_loop
  past_end fuel num initial txs i w h = ground arith

  negative_index :
      (fuel num initial : ℕ) (txs : List T) (n : ℕ) (w : W)
      → (account_loop broadcast (suc fuel) num initial txs (negsuc n) w).0 ≡ index_panic
  unfolding account_loop
  negative_index fuel num initial txs n w = ground arith

  in_step :
      (k fuel num initial : ℕ) (txs : List T) (i : ℕ) (w : W)
      → NumberedFrom initial txs
      → length txs ≡ num
      → i + k ≡ num
      → seq w ≡ initial + i
      → k < fuel
      → ((account_loop broadcast fuel num initial txs (pos i) w).0 ≡ finished)
        × (seq (account_loop broadcast fuel num initial txs (pos i) w).1 ≡ initial + num)
  in_step k zero num initial txs i w hn hl hk hs hf = elim hf [ ]
  in_step zero (suc fuel) num initial txs i w hn hl hk hs hf =
      rw (past_end fuel num initial txs i w (omega arith)) (refl, omega arith)
  in_step (suc k) (suc fuel) num initial txs i w hn hl hk hs hf =
      let (tx, at, q) = numbered_at initial txs i hn (omega arith) in
      let (h, sent, counted) = accepts w tx (q ∙ sym hs) in
      rw
        (round_lem fuel num initial txs i w tx (pos (suc i)) (omega arith) at
          (rw sent (unfold after_broadcast in refl)))
        (in_step k fuel num initial txs (suc i) (broadcast w tx).1 hn hl (omega arith) (omega arith)
          (omega arith))

  -- The first transaction, where the node is not at the initial sequence.
  out_of_step :
      (fuel num initial : ℕ) (txs : List T) (w : W)
      → NumberedFrom initial txs
      → length txs ≡ num
      → 0 < num
      → seq w ≢ initial
      → (w' : W) × (seq w' ≡ seq w)
        × (account_loop broadcast (suc fuel) num initial txs (pos 0) w
            ≡ account_loop broadcast fuel num initial txs (next_index (seq w) initial) w')
  out_of_step fuel num initial txs w hn hl hnum ne =
      let (tx, at, q) = numbered_at initial txs 0 hn (omega arith) in
      let (e, sent, expected, same) = rejects w tx (λ p. ne (sym p ∙ (q ∙ add-zero initial))) in
      (
        (broadcast w tx).1,
        same,
        round_lem fuel num initial txs 0 w tx (next_index (seq w) initial) hnum at
            (rw sent (after_mismatch initial (pos 0) _ expected)),
      )

  -- Against a node that is at the initial sequence, or ahead of it by no more than the number of
  -- transactions, the loop ends by itself within two rounds more than there are transactions, and
  -- the node has then taken every transaction from its own sequence to the last one.
  pub account_loop_catches_up :
      (fuel num initial : ℕ) (txs : List T) (w : W)
      → NumberedFrom initial txs
      → length txs ≡ num
      → initial ≤ seq w
      → seq w ≤ initial + num
      → initial + num < 2 ^ 63
      → num + 2 ≤ fuel
      → ((account_loop broadcast fuel num initial txs (pos 0) w).0 ≡ finished)
        × (seq (account_loop broadcast fuel num initial txs (pos 0) w).1 ≡ initial + num)
  account_loop_catches_up zero num initial txs w hn hl lo hi fits hf = absurd (omega arith)
  account_loop_catches_up (suc fuel) zero initial txs w hn hl lo hi fits hf =
      in_step 0 (suc fuel) 0 initial txs 0 w hn hl (omega arith) (omega arith) (omega arith)
  account_loop_catches_up (suc fuel) (suc num) initial txs w hn hl lo hi fits hf =
      elim (Bool-cases (seq w == initial)) [
        | inl same ↦
            in_step (suc num) (suc fuel) (suc num) initial txs 0 w hn hl (omega arith)
              (omega (arith, (==_iff (seq w) initial).0 same)) (omega arith)
        | inr differ ↦
            let (w', still, eq) =
              out_of_step fuel (suc num) initial txs w hn hl (omega arith) (ground arith) in
            rw (eq, next_index-ahead (seq w) initial (omega arith) lo)
              (in_step (initial + suc num - seq w) fuel (suc num) initial txs (seq w - initial) w'
                hn hl (omega arith) (omega arith) (omega arith))
      ]

  -- Against a node whose sequence is behind the one that was read at the start, the loop over one
  -- transaction or more, numbered from that start, panics on a negative index. The start is below
  -- 2^63, and the fuel is two rounds or more.
  pub account_loop_behind :
      (fuel num initial : ℕ) (txs : List T) (w : W)
      → NumberedFrom initial txs
      → length txs ≡ num
      → 0 < num
      → seq w < initial
      → initial < 2 ^ 63
      → 2 ≤ fuel
      → (account_loop broadcast fuel num initial txs (pos 0) w).0 ≡ index_panic
  account_loop_behind zero num initial txs w hn hl hnum hs fits hf = absurd (omega arith)
  account_loop_behind (suc zero) num initial txs w hn hl hnum hs fits hf = absurd (omega arith)
  account_loop_behind (suc (suc fuel)) num initial txs w hn hl hnum hs fits hf =
      let (w', still, eq) = out_of_step (suc fuel) num initial txs w hn hl hnum (omega arith) in
      rw (eq, next_index-behind (seq w) initial fits hs) (negative_index fuel num initial txs _ w')
