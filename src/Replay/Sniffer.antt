-- ===== src/Replay/Sniffer.antt =====
-- replay/sniffer.go, `run`, and payload/txns_replay_stress.go, `GetNextBlockTxs`: one goroutine
-- fetches the blocks and sends them over a channel, the replay loop of stresser.go receives them.
-- One step is one access of the channels, in every order. Heights are not negative.
pub mod Order
use chain_stresser.Common.{
  ℕ, suc, ◌+◌, ◌<◌, ◌≤◌, ◌≡◌, ◌≢◌, ◌⊎◌, Bool, true, false, Option, none, some, List, [], ◌∷◌, ◌++◌,
  Result, ok, err, length,
}
use chain_stresser.Common.Bytes.{Bytes}

-- `TxReplayConfig`; an end height of 0 is the endless mode.
pub record TxReplayConfig : Type 0 where
  pub start_height : ℕ
  pub end_height : ℕ

abbrev pub default_blocks_buffer : ℕ
default_blocks_buffer = 1000

-- A block as far as it is read: its transactions.
abbrev pub Block : Type 0
Block = List Bytes

-- The cases of the `select` in `GetNextBlockTxs`. A receive on a closed channel that is empty gives
-- nil, which is `none`.
pub data Event (E : Type 0) : Type 0 where
  block_received : Option Block → Event E
  error_received : Option E → Event E
  done_received : Event E
  cancelled : Event E
  timed_out : Event E

pub data NextError (E : Type 0) : Type 0 where
  no_more_blocks : NextError E
  sniffer_error : E → NextError E
  generation_cancelled : NextError E
  timeout_waiting : NextError E

-- `if len(txBytes) > 0`
abbrev pub not_empty : List Bytes → List Bytes
not_empty [] = []
not_empty ([] ∷ txs) = not_empty txs
not_empty ((b ∷ bs) ∷ txs) = (b ∷ bs) ∷ not_empty txs

-- `errors.Wrap` of nil is nil.
unfoldable pub get_next_block_txs : {E : Type 0} → Event E → Result (NextError E) (List Bytes)
get_next_block_txs (block_received none) = err no_more_blocks
get_next_block_txs (block_received (some b)) = ok (not_empty b)
get_next_block_txs (error_received none) = ok []
get_next_block_txs (error_received (some e)) = err (sniffer_error e)
get_next_block_txs done_received = err no_more_blocks
get_next_block_txs cancelled = err generation_cancelled
get_next_block_txs timed_out = err timeout_waiting

-- The two sides: the sniffer with its channels, and the replay with what it has taken out of them.
pub record Channels (E : Type 0) : Type 0 where
  pub height : ℕ
  pub blocks : List Block
  pub error : Option E
  pub closed : Bool
  -- the transactions that the replay has broadcast, and whether it has returned
  pub sent : List Bytes
  pub returned : Bool

-- What the replay loop does with a batch or an error: only the end of the blocks makes it return.
unfoldable pub replay_batch :
    {E : Type 0} → Result (NextError E) (List Bytes) → Channels E → Channels E
replay_batch (ok txs) s = record s { sent = s.sent ++ txs }
replay_batch (err no_more_blocks) s = record s { returned = true }
replay_batch (err (sniffer_error e)) s = s
replay_batch (err generation_cancelled) s = s
replay_batch (err timeout_waiting) s = s

-- `isEndlessMode || height < EndHeight`
abbrev pub GoesOn : TxReplayConfig → ℕ → Type 0
GoesOn cfg height = (cfg.end_height ≡ 0) ⊎ (height < cfg.end_height)

module _ {E : Type 0} (cfg : TxReplayConfig) (block_at : ℕ → Block) where
  abbrev pub start : Channels E
  start = record {
    height = cfg.start_height;
    blocks = [];
    error = none;
    closed = false;
    sent = [];
    returned = false;
  }

  -- What the `select` of the replay can take, and the channels after it.
  pub data Receive (s : Channels E) : Event E → Channels E → Type 0 where
    take_block :
        (b : Block) (bs : List Block)
        → s.blocks ≡ b ∷ bs
        → Receive s (block_received (some b)) (record s { blocks = bs })
    blocks_closed : s.blocks ≡ [] → s.closed ≡ true → Receive s (block_received none) s
    take_error :
        (e : E) → s.error ≡ some e → Receive s (error_received (some e)) (record s { error = none })
    errors_closed : s.error ≡ none → s.closed ≡ true → Receive s (error_received none) s
    done_closed : s.closed ≡ true → Receive s done_received s
    replay_cancelled : Receive s cancelled s
    nothing_in_time : s.blocks ≡ [] → s.error ≡ none → s.closed ≡ false → Receive s timed_out s

  pub data Step (s : Channels E) : Channels E → Type 0 where
    -- `s.blocksCh <- res.Block`, and `height++`
    fetch :
        s.closed ≡ false
        → GoesOn cfg s.height
        → length s.blocks < default_blocks_buffer
        → Step s (record s { blocks = s.blocks ++ block_at s.height ∷ []; height = suc s.height })
    -- `s.errCh <- …`, after the last attempt, and the deferred `close` of the three channels
    give_up :
        (e : E)
        → s.closed ≡ false
        → GoesOn cfg s.height
        → Step s (record s { error = some e; closed = true })
    reach_end :
        s.closed ≡ false
        → cfg.end_height ≢ 0
        → cfg.end_height ≤ s.height
        → Step s (record s { closed = true })
    sniffing_cancelled : s.closed ≡ false → Step s (record s { closed = true })
    receive :
        {t : Channels E} (e : Event E)
        → s.returned ≡ false
        → Receive s e t
        → Step s (replay_batch (get_next_block_txs e) t)

  pub data Reach : Channels E → Type 0 where
    here : Reach start
    next_step : {s t : Channels E} → Reach s → Step s t → Reach t
