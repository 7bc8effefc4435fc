-- ===== src/Chain/Broadcast/Inclusion.antt =====
-- The wait for a block in `Client.Broadcast` (chain/client.go).
use chain_stresser.Common.{
  ◌≡◌, refl, ◌∙◌, ap, true, false, Option, none, some, List, [], ◌∷◌, ◌++◌, map, arith, All, String,
  Bool-cases, inl, inr,
}
use chain_stresser.Common.Bytes.{Bytes}
use chain_stresser.Common.Int.{pos, ltb_ℤ}
use chain_stresser.Chain.Retry.{succeeded, Retry}
use chain_stresser.Chain.Sequence.{SdkErrors, Error}
use chain_stresser.Chain.Broadcast.{
  SyncReply, checked, PollReply, query_error, tx_result, Tick, timed_out, polled, is_hex, poll,
  await_included, attempt, conclude, broadcast,
}

-- The transaction is in a block, and its execution returned code 0.
abbrev pub InBlock : PollReply → Type 0
InBlock (query_error _) = ⊥
InBlock (tx_result _ code _ height) = (code ≡ 0) × (ltb_ℤ (pos 0) height ≡ true)

-- The query has not found the transaction yet, or found it outside a block.
abbrev pub Waiting : PollReply → Type 0
Waiting (query_error known) = known ≡ false
Waiting (tx_result _ code _ height) = (code ≡ 0) × (ltb_ℤ (pos 0) height ≡ false)

-- Some polls that wait, and then one that finds the transaction in a block, before any time-out.
abbrev pub IsIncluded : List Tick → Type 0
IsIncluded ticks =
    (waits : List PollReply) × (r : PollReply) × (rest : List Tick) × (ticks
      ≡ map polled waits ++ polled r ∷ rest)
    × All Waiting waits
    × InBlock r

module _ (sdk : SdkErrors) where
  poll-none : (h : Bytes) (r : PollReply) → poll sdk h r ≡ none → Waiting r
  unfolding poll
  poll-none h (query_error true) e = cc
  poll-none h (query_error false) e = refl
  poll-none h (tx_result cs code log height) e = ground arith

  poll-some : (h : Bytes) (r : PollReply) {h' : Bytes} → poll sdk h r ≡ some (h', none) → InBlock r
  unfolding poll
  poll-some h (query_error true) e = ground arith
  poll-some h (query_error false) e = ground arith
  poll-some h (tx_result cs code log height) e = ground arith

  poll-Waiting : (h : Bytes) (r : PollReply) → Waiting r → poll sdk h r ≡ none
  unfolding poll
  poll-Waiting h (query_error true) w = cc
  poll-Waiting h (query_error false) w = refl
  poll-Waiting h (tx_result cs code log height) w = ground arith

  poll-InBlock : (h : Bytes) (r : PollReply) → InBlock r → poll sdk h r ≡ some (h, none)
  unfolding poll
  poll-InBlock h (query_error b) w = absurd w
  poll-InBlock h (tx_result cs code log height) w = ground arith

  await_included_sound :
      (h : Bytes) (ticks : List Tick) {h' : Bytes}
      → await_included sdk h ticks ≡ some (h', none)
      → IsIncluded ticks
  unfolding await_included
  await_included_sound h [] e = absurd (cc)
  await_included_sound h (timed_out ∷ ts) e = ground arith
  await_included_sound h (polled r ∷ ts) {h'} e =
      go (poll sdk h r) refl e (λ e'. await_included_sound h ts e')
    where
      go :
          (o : Option (Bytes × Option Error))
          → poll sdk h r ≡ o
          → (elim o as (λ _. Option (Bytes × Option Error)) [
            | some x ↦ some x
            | none ↦ await_included sdk h ts
          ])
            ≡ some (h', none)
          → (await_included sdk h ts ≡ some (h', none) → IsIncluded ts)
          → IsIncluded (polled r ∷ ts)
      go (some x) p q ih = ([], r, ts, refl, tt, poll-some h r {h' = h'} (p ∙ q))
      go none p q ih =
          let (waits, r', rest, eq, ws, w) = ih q in
          (r ∷ waits, r', rest, ap (λ (l : List Tick). polled r ∷ l) eq, (poll-none h r p, ws), w)

  await_included_complete :
      (h : Bytes) (waits : List PollReply) (r : PollReply) (rest : List Tick)
      → All Waiting waits
      → InBlock r
      → await_included sdk h (map polled waits ++ polled r ∷ rest) ≡ some (h, none)
  unfolding await_included
  await_included_complete h [] r rest ws w = rw (poll-InBlock h r w, await_included)
  await_included_complete h (w ∷ waits) r rest (hw, ws) hr =
      rw (poll-Waiting h w hw, await_included) (await_included_complete h waits r rest ws hr)

  -- With `await`, whatever the node replies and however the retries go, a broadcast that returns
  -- without an error has seen the transaction in a block with code 0: polls that wait, then that one.
  pub broadcast-IsIncluded :
      (retry : Retry) (replies : List SyncReply) (ticks : List Tick) {h : Bytes}
      → broadcast sdk retry true replies ticks ≡ some (h, none)
      → IsIncluded ticks
  unfolding broadcast
  broadcast-IsIncluded retry replies ticks {h} e =
      go (retry.until_succeeded (attempt sdk) [] replies) e
    where
      go :
          (o : Option (Option Error × Bytes))
          → conclude sdk true ticks o ≡ some (h, none)
          → IsIncluded ticks
      go none e = absurd (cc)
      go (some (some x, h')) e = ground arith
      go (some (none, h')) e = elim (Bool-cases (is_hex h')) [
        | inl hex ↦ await_included_sound h' ticks {h' = h} (rw hex at e)
        | inr bad ↦ ground arith
      ]

  attempt-accepted :
      (h : Bytes) (codespace : String) (log : Bytes)
      → attempt sdk [] (checked h codespace 0 log) ≡ (succeeded, h)
  unfolding attempt
  attempt-accepted h codespace log = refl

  -- Conversely, a transaction that the node takes at once under a hexadecimal hash, and that then
  -- appears in a block, is reported with its hash and no error.
  pub broadcast_included :
      (retry : Retry) (h : Bytes) (codespace : String) (log : Bytes) (rs : List SyncReply)
      (waits : List PollReply) (r : PollReply) (rest : List Tick)
      → is_hex h ≡ true
      → All Waiting waits
      → InBlock r
      → broadcast sdk retry true
          (checked h codespace 0 log ∷ rs)
          (map polled waits ++ polled r ∷ rest)
        ≡ some (h, none)
  unfolding broadcast
  broadcast_included retry h codespace log rs waits r rest hex ws w =
      ap (conclude sdk true (map polled waits ++ polled r ∷ rest))
        (retry.stops (attempt sdk) [] (checked h codespace 0 log) rs (unfold attempt in refl))
      ∙ rw (attempt-accepted h codespace log, hex) (await_included_complete h waits r rest ws w)
