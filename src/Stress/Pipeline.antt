-- ===== src/Stress/Pipeline.antt =====
-- stresser.go, `Stress`: transactions are generated, signed and collected by goroutines over two
-- channels. The goroutines are interleaved in every order: one step is one access of a channel.
pub mod Counts
pub mod Invariant
pub mod Complete
pub mod Progress
use chain_stresser.Common.{
  ℕ, suc, ◌+◌, ◌*◌, ◌<◌, ◌≡◌, Bool, ◌&&◌, Option, none, some, List, [], ◌∷◌, ◌++◌, ◌==◌,
  if◌then◌else◌, length,
}
use chain_stresser.Common.Bytes.{Bytes}
use chain_stresser.Common.Sums.{update}

-- The provider (`payload.TxProvider`) and its transactions. An error of `GenerateTx` or of
-- `BuildAndSignTx` stops the program (`orPanic`), so both are total here. Every provider passes the
-- request's two indices on, and signing keeps them (`WithBytes`).
pub record Provider : Type 1 where
  pub Tx : Type 0
  pub from_idx : Tx → ℕ
  pub tx_idx : Tx → ℕ
  pub bytes : Tx → Bytes
  -- account, index of the transaction, sequence
  pub generate_tx : ℕ → ℕ → ℕ → Tx
  pub sign_tx : Tx → Tx
  pub from_idx-generate_tx : (i j s : ℕ) → from_idx (generate_tx i j s) ≡ i
  pub tx_idx-generate_tx : (i j s : ℕ) → tx_idx (generate_tx i j s) ≡ j
  pub from_idx-sign_tx : (t : Tx) → from_idx (sign_tx t) ≡ from_idx t
  pub tx_idx-sign_tx : (t : Tx) → tx_idx (sign_tx t) ≡ tx_idx t

-- The sizes: accounts, transactions of each, signers, and the capacity of the channels.
pub record Sizes : Type 0 where
  pub accounts : ℕ
  pub num : ℕ
  pub cpus : ℕ
  pub capacity : ℕ

module _ (pr : Provider) (sz : Sizes) (initial : ℕ → ℕ) where
  open pr use {Tx, from_idx, tx_idx, bytes, generate_tx, sign_tx}

  pub record Pipe : Type 0 where
    -- `txIdx` of each account's generator
    pub next : ℕ → ℕ
    pub tx_queue : List Tx
    -- what the signers hold
    pub signing : List Tx
    pub signed_queue : List Tx
    pub collected : ℕ
    -- `signedTxs`, with `nil` where nothing has been stored
    pub table : ℕ → ℕ → Option Bytes

  abbrev pub start : Pipe
  start = record {
    next = λ i. 0;
    tx_queue = [];
    signing = [];
    signed_queue = [];
    collected = 0;
    table = λ i j. none;
  }

  abbrev pub generated : ℕ → ℕ → Tx
  generated i j = generate_tx i j (initial i + j)

  -- `signedTxs[txSigned.FromIdx()][txSigned.TxIdx()] = txSigned.Bytes()`
  abbrev pub store : (ℕ → ℕ → Option Bytes) → Tx → ℕ → ℕ → Option Bytes
  store table t i j = if i == from_idx t && j == tx_idx t then some (bytes t) else table i j

  pub data Step (p : Pipe) : Pipe → Type 0 where
    generate :
        (i : ℕ)
        → i < sz.accounts
        → p.next i < sz.num
        → length p.tx_queue < sz.capacity
        → Step p (record p {
          next = update p.next i (suc (p.next i));
          tx_queue = p.tx_queue ++ generated i (p.next i) ∷ [];
        })
    take :
        (t : Tx) (ts : List Tx)
        → p.tx_queue ≡ t ∷ ts
        → length p.signing < sz.cpus
        → Step p (record p { tx_queue = ts; signing = t ∷ p.signing })
    sign :
        (before after : List Tx) (t : Tx)
        → p.signing ≡ before ++ t ∷ after
        → length p.signed_queue < sz.capacity
        → Step p (record p {
          signing = before ++ after;
          signed_queue = p.signed_queue ++ sign_tx t ∷ [];
        })
    collect :
        (t : Tx) (ts : List Tx)
        → p.signed_queue ≡ t ∷ ts
        → p.collected < sz.accounts * sz.num
        → Step p
            (record p { signed_queue = ts; collected = suc p.collected; table = store p.table t })

  pub data Reach : Pipe → Type 0 where
    here : Reach start
    next_step : {p q : Pipe} → Reach p → Step p q → Reach q
