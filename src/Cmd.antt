-- ===== src/Cmd.antt =====
-- cmd/chain-stresser/main.go: the settings of a run. Cobra and the YAML decoder are parameters: what
-- they deliver is the argument of the functions here.
pub mod Settings
pub mod Commands
use chain_stresser.Common.{
  ℕ, zero, suc, ◌+◌, ◌≡◌, ◌≢◌, Bool, true, false, not, ◌&&◌, ◌||◌, Option, none, some, List, [],
  ◌∷◌, Result, ok, err, if◌then◌else◌, ltb, leb, ◌==◌, length, take, String,
}
use text.Mathlib.Text.{◌==◌ as str_eq}
use chain_stresser.Common.Float.{Floats}
use chain_stresser.Common.Int.{ℤ, pos, negsuc, ltb_ℤ}
use chain_stresser.RateLimit.Config.{Config, BurstConfig}

-- The settings of `StressConfig` that the YAML file can hold, and the rate limit.
pub record StressConfig (F : Type 0) : Type 0 where
  pub chain_id : String
  pub eth_chain_id : ℤ
  pub min_gas_price : String
  pub node_address : String
  pub grpc_address : String
  pub await_tx_confirmation : Bool
  pub num_of_transactions : ℤ
  pub rate_limit : Config F

-- `payload.StresserConfig`, with the zero value for what the file does not have.
pub record YamlConfig (F : Type 0) : Type 0 where
  pub chain_id : String
  pub eth_chain_id : ℤ
  pub min_gas_price : String
  pub node_address : String
  pub grpc_address : String
  pub await_tx_confirmation : Option Bool
  pub num_of_transactions : ℤ
  pub rate_tps : F
  pub rate_bytes : ℕ
  pub rate_gas : ℕ
  pub rate_burst_size : ℤ

-- `cmd.Flags().Changed`, for each flag.
pub record Changed : Type 0 where
  pub chain_id : Bool
  pub eth_chain_id : Bool
  pub min_gas_price : Bool
  pub node_addr : Bool
  pub grpc_addr : Bool
  pub await : Bool
  pub transactions : Bool
  pub rate_tps : Bool
  pub rate_bytes : Bool
  pub rate_gas : Bool
  pub rate_burst_size : Bool

abbrev pub is_zero : ℤ → Bool
is_zero i = not (ltb_ℤ i (pos 0)) && not (ltb_ℤ (pos 0) i)

abbrev pub or_given {ℓ} : {A : Type ℓ} → A → Option A → A
or_given a none = a
or_given a (some b) = b

module _ (fl : Floats) where
  open fl use {Float, zero_f, eqb_f}

  unfoldable pub apply_stresser_config_from_yaml :
      Option (YamlConfig Float) → Changed → StressConfig Float → StressConfig Float
  apply_stresser_config_from_yaml none ch c = c
  apply_stresser_config_from_yaml (some y) ch c = record {
    chain_id = if not (str_eq y.chain_id "") && not ch.chain_id then y.chain_id else c.chain_id;
    eth_chain_id =
        if not (is_zero y.eth_chain_id) && not ch.eth_chain_id
        then y.eth_chain_id
        else c.eth_chain_id;
    min_gas_price =
        if not (str_eq y.min_gas_price "") && not ch.min_gas_price
        then y.min_gas_price
        else c.min_gas_price;
    node_address =
        if not (str_eq y.node_address "") && not ch.node_addr
        then y.node_address
        else c.node_address;
    grpc_address =
        if not (str_eq y.grpc_address "") && not ch.grpc_addr
        then y.grpc_address
        else c.grpc_address;
    await_tx_confirmation =
        if ch.await
        then c.await_tx_confirmation
        else or_given c.await_tx_confirmation y.await_tx_confirmation;
    num_of_transactions =
        if not (is_zero y.num_of_transactions) && not ch.transactions
        then y.num_of_transactions
        else c.num_of_transactions;
    rate_limit = record {
      tx_per_second =
          if not (eqb_f y.rate_tps zero_f) && not ch.rate_tps
          then y.rate_tps
          else c.rate_limit.tx_per_second;
      bytes_per_second =
          if not (y.rate_bytes == 0) && not ch.rate_bytes
          then y.rate_bytes
          else c.rate_limit.bytes_per_second;
      gas_per_second =
          if not (y.rate_gas == 0) && not ch.rate_gas
          then y.rate_gas
          else c.rate_limit.gas_per_second;
      burst = record {
        size =
            if not (is_zero y.rate_burst_size) && not ch.rate_burst_size
            then y.rate_burst_size
            else c.rate_limit.burst.size;
      };
    };
  }

pub data AccountsError : Type 0 where
  not_positive : AccountsError
  reading_failed : AccountsError
  parsing_failed : AccountsError
  too_many : AccountsError

-- What the account file gives: no file, no list of keys in it, or the keys.
pub data AccountFile (Key : Type 0) : Type 0 where
  unreadable : AccountFile Key
  unparsable : AccountFile Key
  holds : List Key → AccountFile Key

abbrev pub first_keys : {Key : Type 0} → ℕ → AccountFile Key → Result AccountsError (List Key)
first_keys n unreadable = err reading_failed
first_keys n unparsable = err parsing_failed
first_keys n (holds keys) = if ltb (length keys) n then err too_many else ok (take n keys)

unfoldable pub read_accounts :
    {Key : Type 0} → ℤ → AccountFile Key → Result AccountsError (List Key)
read_accounts (negsuc n) file = err not_positive
read_accounts (pos zero) file = err not_positive
read_accounts (pos (suc n)) file = first_keys (suc n) file

pub data ReplayError : Type 0 where
  rpc_required : ReplayError
  start_height_required : ReplayError
  start_not_below_end : ReplayError

-- `PreRunE` of the command tx-replay: RPC address, start and end height.
unfoldable pub check_replay : String → ℤ → ℤ → Option ReplayError
check_replay rpc start_height end_height =
    if str_eq rpc ""
    then some rpc_required
    else if is_zero start_height
    then some start_height_required
    else if ltb_ℤ (pos 0) end_height && not (ltb_ℤ start_height end_height)
    then some start_not_below_end
    else none
