-- ===== src/Stress/Pipeline/Counts.antt =====
-- How often a transaction's cell occurs in a queue of the pipeline (stresser.go).
use chain_stresser.Common.{
  ℕ, ◌+◌, ◌≡◌, ◌&&◌, Option, none, some, List, [], ◌∷◌, ◌++◌, arith, ◌==◌, if◌then◌else◌,
}
use chain_stresser.Common.Bytes.{Bytes}
use chain_stresser.Stress.Pipeline.{Provider}

module _ (pr : Provider) where
  open pr use {Tx, from_idx, tx_idx}

  -- 1 if the transaction belongs in the cell, else 0.
  abbrev pub at_cell : ℕ → ℕ → Tx → ℕ
  at_cell i j t = if i == from_idx t && j == tx_idx t then 1 else 0

  unfoldable pub count_at : ℕ → ℕ → List Tx → ℕ
  count_at i j [] = 0
  count_at i j (t ∷ ts) = at_cell i j t + count_at i j ts

  pub count_at-append :
      (i j : ℕ) (ts us : List Tx) → count_at i j (ts ++ us) ≡ count_at i j ts + count_at i j us
  unfolding count_at
  count_at-append i j [] us = omega arith
  count_at-append i j (t ∷ ts) us = omega (arith, count_at-append i j ts us)

  pub count_at-one : (i j : ℕ) (t : Tx) → count_at i j (t ∷ []) ≡ at_cell i j t
  unfolding count_at
  count_at-one i j t = omega arith

-- 1 if a cell of the table is filled, else 0.
abbrev pub filled : Option Bytes → ℕ
filled none = 0
filled (some b) = 1
