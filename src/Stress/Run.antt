-- ===== src/Stress/Run.antt =====
-- stresser.go, `Stress` from end to end: the pipeline fills the table, and the loop of each account
-- broadcasts its row of it.
use chain_stresser.Common.{
  ℕ, zero, suc, ◌+◌, ◌*◌, ◌^◌, ◌≤◌, ◌<◌, ◌≡◌, refl, ap, ◌∙◌, Option, none, some, List, [], ◌∷◌,
  Result, arith, length,
}
use chain_stresser.Common.Bytes.{Bytes}
use chain_stresser.Common.Int.{pos}
use chain_stresser.Stress.Client.{BroadcastError}
use chain_stresser.Stress.Account.{finished, account_loop}
use chain_stresser.Stress.Account.Catchup.{KeepsSequence, NumberedFrom, account_loop_catches_up}
use chain_stresser.Stress.Pipeline.{Provider, Sizes, Pipe, Reach}
use chain_stresser.Stress.Pipeline.Complete.{collected_all}

-- The bytes in a cell; `nil` where nothing is stored.
abbrev pub cell_bytes : Option Bytes → Bytes
cell_bytes none = []
cell_bytes (some b) = b

-- `n` cells of the row `signedTxs[i]`, from the index `j`.
unfoldable pub row_from : (ℕ → ℕ → Option Bytes) → ℕ → ℕ → ℕ → List Bytes
row_from table i j zero = []
row_from table i j (suc n) = cell_bytes (table i j) ∷ row_from table i (suc j) n

-- `accountTxs`
abbrev pub account_txs : (ℕ → ℕ → Option Bytes) → ℕ → ℕ → List Bytes
account_txs table i num = row_from table i 0 num

length-row_from : (table : ℕ → ℕ → Option Bytes) (i j n : ℕ) → length (row_from table i j n) ≡ n
unfolding row_from
length-row_from table i j zero = refl
length-row_from table i j (suc n) = ap suc (length-row_from table i (suc j) n)

module _ (pr : Provider) (sz : Sizes) (initial : ℕ → ℕ) {W : Type 0}
    (broadcast : W → Bytes → Result BroadcastError Bytes × W) (node : KeepsSequence broadcast) where
  open pr use {bytes, generate_tx, sign_tx}
  open sz use {accounts, num}
  open node use {seq, sequence_of}

  -- The bytes of a signed transaction carry the sequence that it was generated with.
  abbrev pub CarriesSequence : Type 0
  CarriesSequence = (i j s : ℕ) → sequence_of (bytes (sign_tx (generate_tx i j s))) ≡ s

  row-NumberedFrom :
      {p : Pipe pr sz initial} (i j n : ℕ)
      → CarriesSequence
      → Reach pr sz initial p
      → p.collected ≡ accounts * num
      → i < accounts
      → j + n ≤ num
      → NumberedFrom broadcast node (initial i + j) (row_from p.table i j n)
  unfolding row_from
  row-NumberedFrom i j zero carries r e hi h = tt
  row-NumberedFrom {p} i j (suc n) carries r e hi h =
      let (_, _, _, stored) = collected_all pr sz initial i j r e hi (omega arith) in
      let shift : initial i + suc j ≡ suc (initial i + j) = omega arith in
      (
        ap (λ o. sequence_of (cell_bytes o)) stored ∙ carries i j (initial i + j),
        rw shift at (row-NumberedFrom {p = p} i (suc j) n carries r e hi (omega arith)),
      )

  -- From end to end: when the pipeline has collected everything, in any interleaving, the loop of
  -- each account, against a node that is at the account's initial sequence or ahead of it within its
  -- transactions, ends by itself, and the node's sequence is then the one past the account's last
  -- transaction. Sequences are below 2^63, and the fuel is two rounds more than the transactions.
  pub account_sends_all :
      {p : Pipe pr sz initial} (fuel i : ℕ) (w : W)
      → CarriesSequence
      → Reach pr sz initial p
      → p.collected ≡ accounts * num
      → i < accounts
      → initial i ≤ seq w
      → seq w ≤ initial i + num
      → initial i + num < 2 ^ 63
      → num + 2 ≤ fuel
      → let out =
          account_loop broadcast fuel num (initial i) (account_txs p.table i num) (pos 0) w in
        (out.0 ≡ finished) × (seq out.1 ≡ initial i + num)
  account_sends_all {p} fuel i w carries r e hi lo hi' fits hf =
      let zero_shift : initial i + 0 ≡ initial i = omega arith in
      account_loop_catches_up broadcast node fuel num (initial i) (account_txs p.table i num) w
        (rw zero_shift at (row-NumberedFrom {p = p} i 0 num carries r e hi (omega arith)))
        (length-row_from p.table i 0 num) lo hi' fits hf
