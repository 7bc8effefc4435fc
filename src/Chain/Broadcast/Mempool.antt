-- ===== src/Chain/Broadcast/Mempool.antt =====
-- The retries of `Client.Broadcast` (chain/client.go).
use chain_stresser.Common.{
  ℕ, ◌≡◌, ◌≢◌, refl, ◌∙◌, ap, Bool, true, some, List, [], ◌∷◌, ◌++◌, arith, All, String,
}
use chain_stresser.Common.Bytes.{Bytes}
use chain_stresser.Chain.Retry.{Attempt, retryable, unrecoverable, Retry}
use chain_stresser.Chain.Sequence.{SdkErrors, Error}
use chain_stresser.Chain.Broadcast.{
  SyncReply, sync_error, checked, Tick, is_mempool_full, attempt, code_error, conclude, broadcast,
}

module _ (sdk : SdkErrors) (retry : Retry) where
  -- The node's mempool was full.
  abbrev pub IsFull : SyncReply → Type 0
  IsFull (sync_error res) = is_mempool_full sdk res ≡ true
  IsFull (checked _ _ _ _) = ⊥

  attempt-IsFull : (h : Bytes) (r : SyncReply) → IsFull r → attempt sdk h r ≡ (retryable, h)
  unfolding attempt
  attempt-IsFull h (sync_error res) full = rw full
  attempt-IsFull h (checked _ _ _ _) full = absurd full

  until_full :
      (h : Bytes) (full rs : List SyncReply)
      → All IsFull full
      → retry.until_succeeded (attempt sdk) h (full ++ rs)
        ≡ retry.until_succeeded (attempt sdk) h rs
  until_full h [] rs _ = refl
  until_full h (r ∷ full) rs (hr, hs) =
      let e = attempt-IsFull h r hr in
      retry.repeats (attempt sdk) h r (full ++ rs) (ap (λ (x : Attempt Error × Bytes). x.0) e)
      ∙ (ap (λ (x : Attempt Error × Bytes). retry.until_succeeded (attempt sdk) x.1 (full ++ rs)) e
          ∙ until_full h full rs hs)

  -- Replies that report a full mempool are retried: they leave no trace in the result.
  pub broadcast-append_full :
      (await : Bool) (full rs : List SyncReply) (ticks : List Tick)
      → All IsFull full
      → broadcast sdk retry await (full ++ rs) ticks ≡ broadcast sdk retry await rs ticks
  unfolding broadcast
  broadcast-append_full await full rs ticks h =
      ap (conclude sdk await ticks) (until_full [] full rs h)

  -- After any number of full mempools, a `CheckTx` that fails ends the call with the node's hash and
  -- the error that the code and the log stand for; nothing is awaited.
  pub broadcast_rejected :
      (await : Bool) (full rs : List SyncReply) (ticks : List Tick) (hash : Bytes)
      (codespace : String) (code : ℕ) (log : Bytes)
      → All IsFull full
      → code ≢ 0
      → broadcast sdk retry await (full ++ checked hash codespace code log ∷ rs) ticks
        ≡ some (hash, some (code_error sdk codespace code log))
  unfolding broadcast
  broadcast_rejected await full rs ticks hash codespace code log h nz =
      ap (conclude sdk await ticks) (
        until_full [] full (checked hash codespace code log ∷ rs) h
        ∙ (retry.gives_up (attempt sdk) [] (checked hash codespace code log) rs
              (code_error sdk codespace code log) (ap (λ (x : Attempt Error × Bytes). x.0) rejected)
            ∙ ap
                (λ (x : Attempt Error × Bytes).
                  some (some (code_error sdk codespace code log), x.1))
                rejected))
    where
      rejected :
          attempt sdk [] (checked hash codespace code log)
          ≡ (unrecoverable (code_error sdk codespace code log), hash)
      rejected = unfold attempt in ground arith
