-- ===== src/Stress/Account/Index.antt =====
-- stresser.go: where the account loop goes on after a sequence mismatch.
use chain_stresser.Common.{ℕ, ◌-◌, ◌^◌, ◌≤◌, ◌<◌, ◌≡◌, ◌∙◌, arith, if◌then◌else◌, leb}
use chain_stresser.Common.Int.{pos, negsuc}
use chain_stresser.Stress.Account.{next_index}

-- For two sequences below 2^63 the index is their difference as a signed number: not negative where
-- the node is at the initial sequence or ahead of it, and negative where it is behind.
pub next_index-eq :
    (expected initial : ℕ)
    → expected < 2 ^ 63
    → initial < 2 ^ 63
    → next_index expected initial
      ≡ (if leb initial expected then pos (expected - initial) else negsuc (initial - expected - 1))
unfolding next_index
next_index-eq expected initial he hi = ground arith

pub next_index-ahead :
    (expected initial : ℕ)
    → expected < 2 ^ 63
    → initial ≤ expected
    → next_index expected initial ≡ pos (expected - initial)
next_index-ahead expected initial he h =
    next_index-eq expected initial he (omega arith) ∙ ground arith

pub next_index-behind :
    (expected initial : ℕ)
    → initial < 2 ^ 63
    → expected < initial
    → next_index expected initial ≡ negsuc (initial - expected - 1)
next_index-behind expected initial hi h =
    next_index-eq expected initial (omega arith) hi ∙ ground arith
