-- ===== src/Cmd/Settings.antt =====
-- cmd/chain-stresser/main.go: the YAML file, the account list and the heights that pass the checks.
use chain_stresser.Common.{
  ℕ, zero, suc, ◌<◌, ◌≡◌, ◌≢◌, refl, sym, ap, inl, inr, Bool, true, false, not, ◌&&◌, Option, none,
  some, List, ◌++◌, ok, if◌then◌else◌, ltb, ◌==◌, length, take, drop, arith, take-drop, length-take,
  Bool-cases, ltb-false, String,
}
use text.Mathlib.Text.{◌==◌ as str_eq}
use chain_stresser.Common.Float.{Floats}
use chain_stresser.Common.Int.{ℤ, pos, negsuc}
use chain_stresser.Replay.Sniffer.{GoesOn}
use chain_stresser.Cmd.{
  StressConfig, YamlConfig, Changed, or_given, apply_stresser_config_from_yaml, AccountFile, holds,
  unreadable, unparsable, first_keys, read_accounts, check_replay, is_zero,
}

-- The two ways in which a field can be read twice.
if_twice :
    {A : Type 0} (b : Bool) (x y : A)
    → (if b then x else (if b then x else y)) ≡ (if b then x else y)
if_twice true x y = refl
if_twice false x y = refl

given_twice :
    (b : Bool) (o : Option Bool) (x : Bool)
    → (if b then (if b then x else or_given x o) else or_given (if b then x else or_given x o) o)
      ≡ (if b then x else or_given x o)
given_twice true o x = refl
given_twice false none x = refl
given_twice false (some y) x = refl

module _ (fl : Floats) where
  open fl use {Float}

  -- Applying the YAML file a second time changes nothing.
  pub apply_twice :
      (y : Option (YamlConfig Float)) (ch : Changed) (c : StressConfig Float)
      → apply_stresser_config_from_yaml fl y ch (apply_stresser_config_from_yaml fl y ch c)
        ≡ apply_stresser_config_from_yaml fl y ch c
  unfolding apply_stresser_config_from_yaml
  apply_twice none ch c = refl
  apply_twice (some y) ch c = λ i. record {
    chain_id = if_twice (not (str_eq y.chain_id "") && not ch.chain_id) y.chain_id c.chain_id i;
    eth_chain_id =
        if_twice (not (is_zero y.eth_chain_id) && not ch.eth_chain_id) y.eth_chain_id c.eth_chain_id
          i;
    min_gas_price =
        if_twice (not (str_eq y.min_gas_price "") && not ch.min_gas_price) y.min_gas_price
          c.min_gas_price i;
    node_address =
        if_twice (not (str_eq y.node_address "") && not ch.node_addr) y.node_address c.node_address
          i;
    grpc_address =
        if_twice (not (str_eq y.grpc_address "") && not ch.grpc_addr) y.grpc_address c.grpc_address
          i;
    await_tx_confirmation = given_twice ch.await y.await_tx_confirmation c.await_tx_confirmation i;
    num_of_transactions =
        if_twice (not (is_zero y.num_of_transactions) && not ch.transactions) y.num_of_transactions
          c.num_of_transactions i;
    rate_limit = record {
      tx_per_second =
          if_twice (not (fl.eqb_f y.rate_tps fl.zero_f) && not ch.rate_tps) y.rate_tps
            c.rate_limit.tx_per_second i;
      bytes_per_second =
          if_twice (not (y.rate_bytes == 0) && not ch.rate_bytes) y.rate_bytes
            c.rate_limit.bytes_per_second i;
      gas_per_second =
          if_twice (not (y.rate_gas == 0) && not ch.rate_gas) y.rate_gas c.rate_limit.gas_per_second
            i;
      burst = record {
        size =
            if_twice (not (is_zero y.rate_burst_size) && not ch.rate_burst_size) y.rate_burst_size
              c.rate_limit.burst.size i;
      };
    };
  }

first_keys-ok :
    {Key : Type 0} (n : ℕ) (keys accounts : List Key)
    → 0 < n
    → first_keys n (holds keys) ≡ ok accounts
    → (keys' : List Key) × (rest : List Key) × (holds keys ≡ holds keys')
      × (accounts ++ rest ≡ keys')
      × (pos n ≡ pos (length accounts))
      × (0 < length accounts)
first_keys-ok n keys accounts h e = elim (Bool-cases (ltb (length keys) n)) [
  | inl few ↦ absurd (ground arith)
  | inr enough ↦
      let same : take n keys ≡ accounts = ground arith in
      let many = length-take n keys (ltb-false (length keys) n enough) in
      (
        keys,
        drop n keys,
        refl,
        rw⁻¹ same (take-drop n keys),
        rw⁻¹ same (ap pos (sym many)),
        rw⁻¹ same (omega (arith, many)),
      )
]

-- Accounts that are read are the first ones of the file, as many as were asked for, and at least one.
pub read_accounts-ok :
    {Key : Type 0} (n : ℤ) (file : AccountFile Key) (accounts : List Key)
    → read_accounts n file ≡ ok accounts
    → (keys : List Key) × (rest : List Key) × (file ≡ holds keys)
      × (accounts ++ rest ≡ keys)
      × (n ≡ pos (length accounts))
      × (0 < length accounts)
unfolding read_accounts
read_accounts-ok (negsuc n) file accounts e = absurd (cc)
read_accounts-ok (pos zero) file accounts e = absurd (cc)
read_accounts-ok (pos (suc n)) unreadable accounts e = absurd (cc)
read_accounts-ok (pos (suc n)) unparsable accounts e = absurd (cc)
read_accounts-ok (pos (suc n)) (holds keys) accounts e =
    first_keys-ok (suc n) keys accounts (omega arith) e

-- Heights that pass the checks of tx-replay, and are not negative, let the sniffer fetch a block.
pub check_replay-GoesOn :
    (rpc : String) (start_height end_height : ℕ)
    → check_replay rpc (pos start_height) (pos end_height) ≡ none
    → (start_height ≢ 0)
      × GoesOn (record { start_height = start_height; end_height = end_height }) start_height
unfolding check_replay
check_replay-GoesOn rpc start_height end_height e = (ground arith, ground arith)
