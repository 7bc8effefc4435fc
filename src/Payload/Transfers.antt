-- ===== src/Payload/Transfers.antt =====
-- payload/bank_send_stress.go and payload/bank_multi_send_stress.go: who receives what.
use chain_stresser.Common.{
  ℕ, zero, suc, ◌+◌, ◌*◌, ◌<◌, ◌≡◌, ◌≢◌, refl, ap, some, List, [], ◌∷◌, length, get_elem?, arith,
  String, if◌then◌else◌, Bool-cases, inl, inr,
}
use text.Mathlib.Text.{◌==◌ as str_eq}
use native.Mathlib.Nat.{mul-suc}
use chain_stresser.Payload.Base.{TxRequest, BaseTx}
use chain_stresser.Payload.Bank.{
  Coin, Msg, msg_send, msg_multi_send, BankProvider, target_idx, unsigned, send_generate_tx,
  outputs_from, multi_send_generate_tx,
}

-- What some coins, or some outputs together, have of one denomination.
abbrev pub amount_in : String → Coin → ℕ
amount_in d c = if str_eq c.denom d then c.amount else 0

abbrev pub coins_total : String → List Coin → ℕ
coins_total d [] = 0
coins_total d (c ∷ cs) = amount_in d c + coins_total d cs

abbrev pub outputs_total : {Addr : Type 0} → String → List (Addr × List Coin) → ℕ
outputs_total d [] = 0
outputs_total d (o ∷ os) = coins_total d o.1 + outputs_total d os

amount_in-times :
    (d : String) (c : Coin) (n : ℕ)
    → amount_in d (record { denom = c.denom; amount = c.amount * n }) ≡ amount_in d c * n
amount_in-times d c n = elim (Bool-cases (str_eq c.denom d)) [
  | inl same ↦ rw same refl
  | inr other ↦ rw other (omega arith)
]

get_elem_below :
    {A : Type 0} (xs : List A) (i : ℕ) → i < length xs → (x : A) × (get_elem? xs i ≡ some x)
get_elem_below [] i h = elim h [ ]
get_elem_below (x ∷ xs) zero h = (x, refl)
get_elem_below (x ∷ xs) (suc i) h = get_elem_below xs i (omega arith)

target_idx-lt : (n i offset : ℕ) → 0 < n → target_idx n i offset < n
unfolding target_idx
target_idx-lt n i offset h = ground arith

-- The transfers of the bank payload go round: two accounts never send to the same one.
pub target_idx-injective : (n i j : ℕ) → i < n → j < n → target_idx n i 1 ≡ target_idx n j 1 → i ≡ j
unfolding target_idx
target_idx-injective n i j hi hj e = ground arith

target_idx-other : (n i : ℕ) → 1 < n → i < n → target_idx n i 1 ≢ i
unfolding target_idx
target_idx-other n i h hi = ground arith

module _ {Key Addr : Type 0} (address : Key → Addr) where
  -- With two accounts or more, a bank transfer is one message over the provider's amount, from the
  -- sender to another account of the list.
  pub send_generate_tx-other :
      (p : BankProvider) (req : TxRequest Key)
      → 1 < length req.keys
      → req.from_idx < length req.keys
      → (i : ℕ) × (to : Key) × (i ≢ req.from_idx)
        × (get_elem? req.keys i ≡ some to)
        × (send_generate_tx address p req
            ≡ some (
                unsigned address req
                  (msg_send (address req.from.key) (address to) (p.send_amount ∷ []))))
  unfolding send_generate_tx
  send_generate_tx-other p req h hi =
      let i = target_idx (length req.keys) req.from_idx 1 in
      let (to, e) = get_elem_below req.keys i (target_idx-lt _ _ 1 (omega arith)) in
      (i, to, target_idx-other _ _ h hi, e, rw e)

  outputs_from-some :
      (c : Coin) (req : TxRequest Key) (offset n : ℕ)
      → 0 < length req.keys
      → (outs : List (Addr × List Coin)) × (outputs_from address c req offset n ≡ some outs)
        × (length outs ≡ n)
        × ((d : String) → outputs_total d outs ≡ amount_in d c * n)
  unfolding outputs_from
  outputs_from-some c req offset zero h = ([], refl, refl, λ d. omega arith)
  outputs_from-some c req offset (suc n) h =
      let (to, e) =
        get_elem_below req.keys (target_idx (length req.keys) req.from_idx offset)
          (target_idx-lt _ _ offset h) in
      let (outs, made, many, total) = outputs_from-some c req (suc offset) n h in
      (
        (address to, c ∷ []) ∷ outs,
        rw (e, made),
        ap suc many,
        λ d. omega (arith, total d, mul-suc (amount_in d c) n),
      )

  -- Where there is an account at all, a multi-send is one message whose outputs, as many as there are
  -- targets, add up to its input in every denomination.
  pub multi_send_balanced :
      (p : BankProvider) (req : TxRequest Key)
      → 0 < length req.keys
      → (t : BaseTx Key (Msg Addr)) × (input : Coin) × (outs : List (Addr × List Coin))
        × (multi_send_generate_tx address p req ≡ some t)
        × (t.msgs ≡ msg_multi_send (address req.from.key, input ∷ []) outs ∷ [])
        × (length outs ≡ p.num_targets)
        × ((d : String) → outputs_total d outs ≡ coins_total d (input ∷ []))
  unfolding multi_send_generate_tx
  multi_send_balanced p req h =
      let (outs, made, many, total) = outputs_from-some p.send_amount req 1 p.num_targets h in
      let input : Coin = record {
        denom = p.send_amount.denom;
        amount = p.send_amount.amount * p.num_targets;
      } in
      (
        unsigned address req (msg_multi_send (address req.from.key, input ∷ []) outs),
        input,
        outs,
        rw made,
        refl,
        many,
        λ d. omega (arith, total d, amount_in-times d p.send_amount p.num_targets),
      )
