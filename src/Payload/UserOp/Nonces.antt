-- ===== src/Payload/UserOp/Nonces.antt =====
-- payload/eth_userop_stress.go: the nonces of the operations, from one transaction to the next.
use mathlib.Core.List.{map-append}
use chain_stresser.Common.{
  ℕ, zero, suc, ◌+◌, ◌*◌, ◌%◌, ◌^◌, ◌<◌, ◌≡◌, refl, ap, ◌∙◌, sym, arith, false, not, ◌&&◌, Option,
  some, List, [], ◌∷◌, ◌++◌, map, Result, ok, ◌>>=◌, ◌==◌, ==_iff, Bool-cases, inl, inr, length,
  length-map, All,
}
use chain_stresser.Common.Bytes.{Bytes, eq_bytes}
use chain_stresser.Common.BigEndian.{value}
use chain_stresser.Common.Int.{ℤ, pos, to_int}
use chain_stresser.Common.Sums.{update}
use chain_stresser.Payload.Base.{TxRequest, BaseTx}
use chain_stresser.Payload.Eth.{EthMsg, unsigned_eth}
use chain_stresser.Payload.UserOp.{UserOpProvider, estimates, user_ops_from, user_op_generate_tx}
use chain_stresser.Aa.UserOp.{zero_address, UserOperation, PackedUserOperation}
use chain_stresser.Aa.Packing.{Fits}
use chain_stresser.Aa.Signer.{AaError}
use chain_stresser.Aa.Account.{
  LightAccount, Abi, new_user_operation, op_init_code, init_code, create_account_call_data,
  salt_big, user_operation,
}

-- n, n + 1, ... with so many terms
abbrev pub count_from : ℕ → ℕ → List ℕ
count_from n zero = []
count_from n (suc k) = n ∷ count_from (n + 1) k

count_from-append : (n k m : ℕ) → count_from n (k + m) ≡ count_from n k ++ count_from (n + k) m
count_from-append n zero m = grind arith
count_from-append n (suc k) m = grind (arith, count_from-append (n + 1) k m)

small : (n : ℕ) → n < 2 ^ 63 → (n + 1) % 2 ^ 64 ≡ n + 1
small n h = omega arith

module _ {P : Type 0} (new : ℕ → Result AaError UserOperation)
    (sign : UserOperation → Result AaError P) (nonce_of : P → ℤ)
    (makes : (m : ℕ)
      → m < 2 ^ 63
      → (op : UserOperation) × (p : P) × (new m ≡ ok op)
        × (sign op ≡ ok p)
        × (nonce_of p ≡ pos m)) where
  user_ops_from-nonces :
      (k n : ℕ)
      → n + k < 2 ^ 63
      → (ps : List P) × (user_ops_from new sign k n ≡ (ok ps, n + k))
        × (map nonce_of ps ≡ map pos (count_from n k))
  unfolding user_ops_from
  user_ops_from-nonces zero n h = ([], ap (λ (m : ℕ). (ok [], m)) (omega arith), refl)
  user_ops_from-nonces (suc k) n h =
      let (op, p, made, signed, at) = makes n (omega arith) in
      let (ps, e, nonces) = user_ops_from-nonces k (n + 1) (omega arith) in
      (
        p ∷ ps,
        rw (user_ops_from, made, signed, small n (omega arith), e)
            (ap (λ (m : ℕ). (ok (p ∷ ps), m)) (omega arith)),
        ap (λ l. nonce_of p ∷ l) nonces ∙ ap (λ z. z ∷ map pos (count_from (n + 1) k)) at,
      )

module _ (abi : Abi)
    (packs_execute : (contract : Bytes) (value : ℕ) (call_data : Bytes)
      → (b : Bytes) × (abi.pack_execute contract value call_data ≡ some b))
    (packs_create_account : (owner : Bytes) (salt : ℤ)
      → (b : Bytes) × (abi.pack_create_account owner salt ≡ some b)) where
  init_code-ok : (la : LightAccount) → (b : Bytes) × (init_code abi la ≡ ok b)
  unfolding init_code create_account_call_data
  init_code-ok la =
      let (b, e) = packs_create_account la.eoa_owner (salt_big la la.salt) in
      (la.account_factory_address ++ b, rw e refl)

  op_init_code-ok : (la : LightAccount) (n : ℕ) → (b : Bytes) × (op_init_code abi la n ≡ ok b)
  unfolding op_init_code
  op_init_code-ok la n = elim (Bool-cases (not la.is_deployed && n == 0)) [
    | inl new ↦ let (b, e) = init_code-ok la in (b, rw new e)
    | inr old ↦ ([], rw old refl)
  ]

  new_user_operation-ok :
      (la : LightAccount) (contract call_data : Bytes) (n : ℕ)
      → (op : UserOperation) × (new_user_operation abi la contract call_data n (estimates ∷ [])
          ≡ ok op)
        × Fits op
        × (op.nonce ≡ to_int n)
  unfolding new_user_operation
  new_user_operation-ok la contract call_data n =
      let (b, e) = packs_execute contract 0 call_data in
      let (c, f) = op_init_code-ok la n in
      (
        user_operation abi la n estimates c b,
        rw (e, f) refl,
        (omega arith, omega arith, omega arith, omega arith),
        refl,
      )

to_int_small : (n : ℕ) → n < 2 ^ 63 → to_int n ≡ pos n
to_int_small n h = ground arith

update_at : {A : Type 0} (f : ℕ → A) (k : ℕ) (v : A) (i : ℕ) → k ≡ i → update f k v i ≡ v
update_at f k v i e = rw ((==_iff i k).1 (sym e)) refl

length-count_from : (n k : ℕ) → length (count_from n k) ≡ k
length-count_from n zero = refl
length-count_from n (suc k) = ap suc (length-count_from (n + 1) k)

length-nonces :
    (ops : List PackedUserOperation) (n k : ℕ)
    → map (λ op. op.nonce) ops ≡ map pos (count_from n k)
    → length ops ≡ k
length-nonces ops n k e =
    sym (length-map (λ op. op.nonce) ops)
    ∙ ap length e
    ∙ length-map pos (count_from n k)
    ∙ length-count_from n k

nonces-append :
    (ops later : List PackedUserOperation) (n r k : ℕ)
    → map (λ op. op.nonce) ops ≡ map pos (count_from n r)
    → map (λ op. op.nonce) later ≡ map pos (count_from (n + r) k)
    → map (λ op. op.nonce) (ops ++ later) ≡ map pos (count_from n (r + k))
nonces-append ops later n r k e f =
    rw
      (
        map-append (λ op. op.nonce) ops later,
        e,
        f,
        ← map-append pos (count_from n r) (count_from (n + r) k),
        ← count_from-append n r k,
      )
      refl

fifty_more : (k : ℕ) → 50 + k * 50 ≡ suc k * 50
fifty_more k = omega arith

module _ {Key : Type 0} (abi : Abi) (call_data : Bytes)
    (sign : Key → UserOperation → Result AaError PackedUserOperation)
    (handle_ops_call_data : List PackedUserOperation → Bytes → Option Bytes)
    (eth_address : Key → Bytes) where
  -- The transaction calls the entry point with these operations, for its sender.
  abbrev pub Carries :
      UserOpProvider → TxRequest Key → List PackedUserOperation → BaseTx Key EthMsg → Type 0
  Carries p req ops t =
      (b : Bytes) × (handle_ops_call_data ops (eth_address req.from.key) ≡ some b)
      × (t
          ≡ unsigned_eth req (record {
            nonce = req.from.sequence;
            to = some (value p.entrypoint_address);
            value = 0;
            gas = p.max_gas_limit_per_user_op * length ops % 2 ^ 64;
            gas_price = p.min_gas_price.amount;
            input = b;
          }))

  -- The transactions of some requests, generated one after the other; the first error ends it.
  abbrev pub generate_all :
      UserOpProvider
      → List (TxRequest Key)
      → Result AaError (List (BaseTx Key EthMsg) × UserOpProvider)
  generate_all p [] = ok ([], p)
  generate_all p (req ∷ reqs) =
      let (r, p') =
        user_op_generate_tx abi (some call_data) sign handle_ops_call_data eth_address p req in
      r >>= λ t. generate_all p' reqs >>= λ rest. ok (t ∷ rest.0, rest.1)

  -- The transactions carry the operations, in order, and each carries fifty of them.
  abbrev pub CarryAll :
      UserOpProvider
      → List (TxRequest Key)
      → List PackedUserOperation
      → List (BaseTx Key EthMsg)
      → Type 0
  CarryAll p [] ops ts = (ops ≡ []) × (ts ≡ [])
  CarryAll p (req ∷ reqs) ops [] = ⊥
  CarryAll p (req ∷ reqs) ops (t ∷ ts) =
      (now : List PackedUserOperation) × (later : List PackedUserOperation) × (ops ≡ now ++ later)
      × (length now ≡ 50)
      × Carries p req now t
      × CarryAll p reqs later ts

  -- Packing and signing succeed.
  module _
      (packs_execute : (contract : Bytes) (value : ℕ) (data' : Bytes)
        → (b : Bytes) × (abi.pack_execute contract value data' ≡ some b))
      (packs_create_account : (owner : Bytes) (salt : ℤ)
        → (b : Bytes) × (abi.pack_create_account owner salt ≡ some b))
      (signs : (key : Key) (op : UserOperation)
        → Fits op
        → (p : PackedUserOperation) × (sign key op ≡ ok p) × (p.nonce ≡ op.nonce))
      (handles : (ops : List PackedUserOperation) (beneficiary : Bytes)
        → (b : Bytes) × (handle_ops_call_data ops beneficiary ≡ some b)) where
    makes :
        (key : Key) (la : LightAccount) (contract : Bytes) (m : ℕ)
        → m < 2 ^ 63
        → (op : UserOperation) × (p : PackedUserOperation) × (new_user_operation abi la contract
              call_data m
              (estimates ∷ [])
            ≡ ok op)
          × (sign key op ≡ ok p)
          × (p.nonce ≡ pos m)
    makes key la contract m h =
        let (op, e, fits, n) =
          new_user_operation-ok abi packs_execute packs_create_account la contract call_data m in
        let (p, f, same) = signs key op fits in (op, p, e, f, same ∙ n ∙ to_int_small m h)

    -- One transaction takes the account's next fifty nonces.
    user_op_generate_tx-nonces :
        (p : UserOpProvider) (req : TxRequest Key) (la : LightAccount)
        → eq_bytes p.counter_contract_address zero_address ≡ false
        → p.light_accounts req.from_idx ≡ some la
        → p.light_account_nonces req.from_idx + 50 < 2 ^ 63
        → (t : BaseTx Key EthMsg) × (ops : List PackedUserOperation) × (user_op_generate_tx abi
              (some call_data)
              sign
              handle_ops_call_data
              eth_address
              p
              req
            ≡ (
              ok t,
              record p {
                light_account_nonces =
                    update p.light_account_nonces req.from_idx
                      (p.light_account_nonces req.from_idx + 50);
              },
            ))
          × Carries p req ops t
          × (map (λ op. op.nonce) ops
              ≡ map pos (count_from (p.light_account_nonces req.from_idx) 50))
    unfolding user_op_generate_tx
    user_op_generate_tx-nonces p req la set found room =
        let (ops, e, nonces) =
          user_ops_from-nonces
            (λ n. new_user_operation abi la p.counter_contract_address call_data n (estimates ∷ []))
            (sign req.from.key) (λ op. op.nonce) (makes req.from.key la p.counter_contract_address)
            50 (p.light_account_nonces req.from_idx) room in
        let (b, handled) = handles ops (eth_address req.from.key) in
        (_, ops, rw (set, found, e, handled) refl, (b, handled, refl), nonces)

    -- When packing and signing succeed, the transactions of an account that has a light account are all
    -- generated: each carries fifty operations, to the entry point, and the operations of all of them
    -- together have the consecutive nonces from the account's, which ends behind the last of them. The
    -- nonces stay below 2^63.
    pub generate_all-nonces :
        (p : UserOpProvider) (i n : ℕ) (la : LightAccount) (reqs : List (TxRequest Key))
        → All (λ req. req.from_idx ≡ i) reqs
        → eq_bytes p.counter_contract_address zero_address ≡ false
        → p.light_accounts i ≡ some la
        → p.light_account_nonces i ≡ n
        → n + length reqs * 50 < 2 ^ 63
        → (ts : List (BaseTx Key EthMsg)) × (p' : UserOpProvider) × (ops : List PackedUserOperation)
          × (generate_all p reqs ≡ ok (ts, p'))
          × CarryAll p reqs ops ts
          × (map (λ op. op.nonce) ops ≡ map pos (count_from n (length reqs * 50)))
          × (p'.light_account_nonces i ≡ n + length reqs * 50)
    generate_all-nonces p i n la [] same set found from room =
        ([], p, [], refl, (refl, refl), refl, from ∙ omega arith)
    generate_all-nonces p i n la (req ∷ reqs) (e, same) set found from room =
        let here : p.light_account_nonces req.from_idx ≡ n = ap p.light_account_nonces e ∙ from in
        let (t, ops, made, carries, nonces) =
          user_op_generate_tx-nonces p req la set (ap p.light_accounts e ∙ found)
            (rw here (omega (arith, room))) in
        let p1 : UserOpProvider = record p {
          light_account_nonces =
              update p.light_account_nonces req.from_idx (p.light_account_nonces req.from_idx + 50);
        } in
        let (ts, p', later, rest, carry, more, end) =
          generate_all-nonces p1 i (n + 50) la reqs same set found
            (update_at p.light_account_nonces req.from_idx
                (p.light_account_nonces req.from_idx + 50) i e
              ∙ ap (λ m. m + 50) here)
            (omega (arith, room)) in
        (
          t ∷ ts,
          p',
          ops ++ later,
          rw (made, rest) refl,
          (
            ops,
            later,
            refl,
            length-nonces ops (p.light_account_nonces req.from_idx) 50 nonces,
            carries,
            carry,
          ),
          nonces-append ops later n 50 (length reqs * 50)
                (nonces ∙ ap (λ m. map pos (count_from m 50)) here) more
              ∙ ap (λ m. map pos (count_from n m)) (fifty_more (length reqs)),
          end ∙ omega arith,
        )
