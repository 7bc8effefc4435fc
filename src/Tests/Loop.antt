-- ===== src/Tests/Loop.antt =====
-- stresser.go: the account loop and the pipeline on small inputs.
use chain_stresser.Common.{
  Option, zero, Bool, false, ℕ, suc, ◌*◌, ◌≤◌, ◌≡◌, ◌≢◌, refl, none, some, List, [], ◌∷◌, ◌==◌,
  if◌then◌else◌, Result, ok, err, arith,
}
use chain_stresser.Common.Bytes.{Bytes}
use chain_stresser.Common.Int.{pos}
use chain_stresser.Common.Sums.{update}
use chain_stresser.Chain.Sequence.{sequence_error, is_sequence_error}
use chain_stresser.Stress.Client.{BroadcastError, client_error, expected_sequence}
use chain_stresser.Stress.Account.{finished, index_panic, account_loop}
use chain_stresser.Stress.Account.Catchup.{
  KeepsSequence, account_loop_catches_up, account_loop_behind,
}
use chain_stresser.Stress.Pipeline.{
  Provider, Sizes, Pipe, store, Step, generate, take, sign, collect, Reach, here, next_step,
}
use chain_stresser.Stress.Pipeline.Invariant.{Invariant, reachable-Invariant}
use chain_stresser.Stress.Pipeline.Complete.{collected_all}
use chain_stresser.Stress.Initial.{Pool, Worker, sent}
use chain_stresser.Stress.Run.{account_txs, account_sends_all}
use chain_stresser.Stress.Pipeline.Progress.{steps, steps_bounded, no_deadlock}

-- A node that is its next sequence, and transactions that are theirs.
abbrev node : ℕ → ℕ → Result BroadcastError Bytes × ℕ
node w t = if t == w then (ok [], suc w) else (err (client_error (sequence_error w [])), w)

node_accepts : (w t : ℕ) → t ≡ w → (h : Bytes) × ((node w t).0 ≡ ok h) × ((node w t).1 ≡ suc w)
node_accepts w t e = ([], ground arith, ground arith)

node_rejects :
    (w t : ℕ)
    → t ≢ w
    → (e : BroadcastError) × ((node w t).0 ≡ err e)
      × (expected_sequence e ≡ some w)
      × ((node w t).1 ≡ w)
unfolding expected_sequence is_sequence_error
node_rejects w t ne = (client_error (sequence_error w []), ground arith, refl, ground arith)

abbrev counted : KeepsSequence node
counted = record {
  seq = λ w. w;
  sequence_of = λ t. t;
  accepts = node_accepts;
  rejects = node_rejects;
}

abbrev numbered : List ℕ
numbered = 5 ∷ 6 ∷ 7 ∷ []

account_loop_catches_up_example :
    ((account_loop node 5 3 5 numbered (pos 0) 6).0 ≡ finished)
    × ((account_loop node 5 3 5 numbered (pos 0) 6).1 ≡ 8)
account_loop_catches_up_example =
    account_loop_catches_up node counted 5 3 5 numbered 6 (refl, (refl, (refl, tt))) refl
      (omega arith) (omega arith) (omega arith) (omega arith)

account_loop_behind_example : (account_loop node 5 3 5 numbered (pos 0) 4).0 ≡ index_panic
account_loop_behind_example =
    account_loop_behind node counted 5 3 5 numbered 4 (refl, (refl, (refl, tt))) refl (omega arith)
      (omega arith) (omega arith) (omega arith)

-- A transaction: its two indices, and its bytes.
abbrev IndexedTx : Type 0
IndexedTx = ℕ × ℕ × Bytes

abbrev provider : Provider
provider = record {
  Tx = IndexedTx;
  from_idx = λ t. t.0;
  tx_idx = λ t. t.1;
  bytes = λ t. t.2;
  generate_tx = λ i j s. (i, j, s ∷ []);
  sign_tx = λ t. (t.0, t.1, b'S' ∷ t.2);
  from_idx-generate_tx = λ i j s. refl;
  tx_idx-generate_tx = λ i j s. refl;
  from_idx-sign_tx = λ t. refl;
  tx_idx-sign_tx = λ t. refl;
}

abbrev sizes : Sizes
sizes = record { accounts = 1; num = 1; cpus = 1; capacity = 1 }

abbrev sequences : ℕ → ℕ
sequences i = 9

abbrev State : Type 0
State = Pipe provider sizes sequences

abbrev unsigned : IndexedTx
unsigned = (0, 0, 9 ∷ [])

abbrev signed : IndexedTx
signed = (0, 0, b'S' ∷ 9 ∷ [])

-- The one transaction on its way: queued, with the signer, signed, and collected.
abbrev state_at : ℕ → List IndexedTx → List IndexedTx → List IndexedTx → State
state_at n queue held queue' = record {
  next = update (λ i. 0) 0 n;
  tx_queue = queue;
  signing = held;
  signed_queue = queue';
  collected = 0;
  table = λ i j. none;
}

abbrev signed_state : State
signed_state = state_at 1 [] [] (signed ∷ [])

abbrev final_state : State
final_state = record signed_state {
  signed_queue = [];
  collected = 1;
  table = store provider sizes sequences (λ i j. none) signed;
}

signed_run : Reach provider sizes sequences signed_state
signed_run =
    next_step
      (next_step (next_step here (generate 0 (omega arith) (omega arith) (omega arith)))
        (take unsigned [] refl (omega arith)))
      (sign [] [] unsigned refl (omega arith))

final_run : Reach provider sizes sequences final_state
final_run = next_step signed_run (collect signed [] refl (omega arith))

reachable-Invariant_example : Invariant provider sizes sequences signed_state
reachable-Invariant_example = reachable-Invariant provider sizes sequences signed_run

collected_all_example :
    (final_state.tx_queue ≡ [])
    × (final_state.signing ≡ [])
    × (final_state.signed_queue ≡ [])
    × (final_state.table 0 0 ≡ some (b'S' ∷ 9 ∷ []))
collected_all_example =
    collected_all provider sizes sequences 0 0 final_run refl (omega arith) (omega arith)

steps_bounded_example : steps provider sizes sequences final_run ≤ 4 * (1 * 1)
steps_bounded_example = steps_bounded provider sizes sequences final_run

no_deadlock_example : (q : State) × Step provider sizes sequences signed_state q
no_deadlock_example =
    no_deadlock provider sizes sequences signed_state signed_run (omega arith) (omega arith)
      (omega arith)

-- The second byte of a signed transaction is its sequence.
abbrev second : Bytes → ℕ
second [] = 0
second (a ∷ []) = 0
second (a ∷ b ∷ bs) = b

abbrev byte_node : ℕ → Bytes → Result BroadcastError Bytes × ℕ
byte_node w tx = node w (second tx)

abbrev byte_counted : KeepsSequence byte_node
byte_counted = record {
  seq = λ w. w;
  sequence_of = second;
  accepts = λ w tx e. node_accepts w (second tx) e;
  rejects = λ w tx ne. node_rejects w (second tx) ne;
}

account_sends_all_example :
    ((account_loop byte_node 3 1 9 (account_txs final_state.table 0 1) (pos 0) 9).0 ≡ finished)
    × ((account_loop byte_node 3 1 9 (account_txs final_state.table 0 1) (pos 0) 9).1 ≡ 10)
account_sends_all_example =
    account_sends_all provider sizes sequences byte_node byte_counted 3 0 9 (λ i j s. refl)
      final_run refl (omega arith) (omega arith) (omega arith) (omega arith) (omega arith)

-- Signing counts the calls and fails at the first one; a broadcast succeeds.
abbrev sign_second : ℕ → ℕ → Result ℕ ℕ × ℕ
sign_second zero t = (err 0, 1)
sign_second (suc w) t = (ok t, suc (suc w))

abbrev broadcast_counted : ℕ → ℕ → Result ℕ ℕ × ℕ
broadcast_counted w s = (ok s, suc w)

abbrev is_cancelled : ℕ → Bool
is_cancelled w = false

abbrev one_tx : List ℕ
one_tx = 7 ∷ []

abbrev all_settled : Pool ℕ ℕ
all_settled = record {
  waiting = [];
  running = [];
  settled = (record { tx = 7; attempts = 2; outcome = sent }) ∷ [];
}

abbrev signed_worker : Option ℕ → ℕ → Worker ℕ ℕ
signed_worker o n = record { tx = 7; attempts = n; signed = o }
