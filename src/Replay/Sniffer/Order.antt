-- ===== src/Replay/Sniffer/Order.antt =====
-- replay/sniffer.go and payload/txns_replay_stress.go: which blocks are fetched and sent.
use chain_stresser.Common.{
  ℕ, zero, suc, ◌+◌, ◌≤◌, ◌≡◌, refl, ◌⊎◌, true, false, List, [], ◌∷◌, ◌++◌, length,
}
use chain_stresser.Common.Bytes.{Bytes}
use chain_stresser.Replay.Sniffer.{
  TxReplayConfig, default_blocks_buffer, Block, done_received, not_empty, get_next_block_txs,
  Channels, replay_batch, done_closed, Step, receive, Reach,
}

-- The transactions of some blocks, one block after the other.
abbrev pub transactions : List Block → List Bytes
transactions [] = []
transactions (b ∷ bs) = not_empty b ++ transactions bs

-- `n` blocks of the chain, from a height on.
abbrev pub blocks_from : (ℕ → Block) → ℕ → ℕ → List Block
blocks_from block_at h zero = []
blocks_from block_at h (suc n) = block_at h ∷ blocks_from block_at (suc h) n

module _ {E : Type 0} (cfg : TxReplayConfig) (block_at : ℕ → Block) where
  -- After `n` fetched blocks, some of which have been taken and sent.
  record Invariant (s : Channels E) : Type 0 where
    fetched : ℕ
    taken : List Block
    at_height : s.height ≡ cfg.start_height + fetched
    no_gap : taken ++ s.blocks ≡ blocks_from block_at cfg.start_height fetched
    sent_taken : s.sent ≡ transactions taken
    has_room : length s.blocks ≤ default_blocks_buffer
    before_end : (cfg.end_height ≡ 0) ⊎ ((fetched ≡ 0) ⊎ (s.height ≤ cfg.end_height))

  -- Once the sniffer is done, a replay that has not returned can return at once, with the blocks that
  -- still wait in the channel left unsent.
  pub returns_early :
      (s : Channels E)
      → Reach cfg block_at s
      → s.closed ≡ true
      → s.returned ≡ false
      → (t : Channels E) × Step cfg block_at s t
        × (t.returned ≡ true)
        × (t.blocks ≡ s.blocks)
        × (t.sent ≡ s.sent)
  unfolding replay_batch get_next_block_txs
  returns_early s r closed waits = (
    replay_batch (get_next_block_txs done_received) s,
    receive done_received waits (done_closed closed),
    refl,
    refl,
    refl,
  )
