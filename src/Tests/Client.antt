-- ===== src/Tests/Client.antt =====
-- chain/client.go and the broadcast client at concrete replies of a node.
use chain_stresser.Common.{ℕ, suc, ◌≡◌, refl, true, false, none, some, [], ◌∷◌, Result, ok}
use chain_stresser.Common.Bytes.{Bytes, codes}
use chain_stresser.Common.Int.{ℤ, pos}
use chain_stresser.Chain.Retry.{documented, retry_loop}
use chain_stresser.Chain.Sequence.{Error}
use chain_stresser.Chain.Broadcast.{
  SyncReply, sync_error, checked, PollReply, query_error, tx_result, polled, broadcast, is_hex,
  await_included, attempt, poll,
}
use chain_stresser.Chain.Broadcast.Inclusion.{IsIncluded, broadcast-IsIncluded}
use chain_stresser.Stress.Client.{Shared}
use chain_stresser.Tests.Instances.{sdk_errors}
use chain_stresser.Tests.Limits.{ready}

abbrev full_mempool : SyncReply
full_mempool = sync_error (some (record { codespace = "sdk"; code = 20; tx_hash = [] }))

abbrev hash : Bytes
hash = codes "0aF1"

hash-is_hex : is_hex hash ≡ true
unfolding is_hex
hash-is_hex = refl

abbrev accepted : SyncReply
accepted = checked hash "" 0 []

abbrev in_block : PollReply
in_block = tx_result "" 0 [] (pos 7)

included_run :
    broadcast sdk_errors documented true
      (accepted ∷ [])
      (polled (query_error false) ∷ polled in_block ∷ [])
    ≡ some (hash, none)
unfolding broadcast await_included poll attempt is_hex retry_loop
included_run = refl

broadcast-IsIncluded_example : IsIncluded (polled (query_error false) ∷ polled in_block ∷ [])
broadcast-IsIncluded_example =
    broadcast-IsIncluded sdk_errors documented (accepted ∷ [])
      (polled (query_error false) ∷ polled in_block ∷ []) {h = hash} included_run

-- A node that counts the transactions it takes, and its only decoder knows no transaction.
abbrev counting : ℕ → Bytes → Result Error Bytes × ℕ
counting n tx = (ok tx, suc n)

abbrev shared : Shared ℤ ℤ ℕ
shared = record { rate_limiter = some ready; node = 3 }
