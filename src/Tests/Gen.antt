-- ===== src/Tests/Gen.antt =====
-- The generator of networks on small inputs.
use chain_stresser.Common.{
  ℕ, ◌+◌, ◌*◌, ◌≤◌, ◌<◌, ◌≡◌, refl, arith, true, false, Option, none, some, List, [], ◌∷◌, ok,
}
use chain_stresser.Common.Bytes.{Bytes}
use chain_stresser.Common.Int.{pos}
use chain_stresser.Gen.Genesis.{Coins, Genesis, add_account, fill_genesis}
use chain_stresser.Gen.Genesis.Supply.{total, fill_genesis-supply}
use chain_stresser.Gen.Ports.{Has, port_list}
use chain_stresser.Gen.Network.{
  Ip, GeneratorEnvironment, check_generate, NodeConfig, Network, validator_node,
}
use chain_stresser.Gen.Network.Native.{check_generate-ports}

abbrev ten : Coins
ten d = 10

abbrev hundred : Coins
hundred d = 100

abbrev nothing : Coins
nothing d = 0

abbrev empty : Genesis ℕ
empty = record { finalized = false; accounts = []; balances = []; supply = nothing; gen_txs = [] }

abbrev staker_address : ℕ → ℕ
staker_address i = i

abbrev account_address : ℕ → ℕ → ℕ
account_address i j = 100 * i + j

abbrev create_tx : ℕ → Bytes
create_tx i = i ∷ []

abbrev as_is : List (ℕ × Coins) → List (ℕ × Coins)
as_is bs = bs

abbrev total_kept : (d : Bytes) (bs : List (ℕ × Coins)) → total d (as_is bs) ≡ total d bs
total_kept d bs = refl

-- Two validators, a sentry, and three instances of four accounts.
fill_genesis-supply_example :
    (g' : Genesis ℕ) × (fill_genesis
        (some ten)
        (some hundred)
        staker_address
        account_address
        (λ i. some (create_tx i))
        as_is
        2
        1
        3
        4
        empty
      ≡ some g')
    × (g'.accounts ≡ 0 ∷ 1 ∷ 0 ∷ 1 ∷ 2 ∷ 3 ∷ 100 ∷ 101 ∷ 102 ∷ 103 ∷ 200 ∷ 201 ∷ 202 ∷ 203 ∷ [])
    × (g'.gen_txs ≡ (0 ∷ []) ∷ (1 ∷ []) ∷ [])
    × ((d : Bytes) → (g'.supply d ≡ 1220) × (total d g'.balances ≡ 1220))
    × (g'.finalized ≡ true)
    × ((a : ℕ) (c : Option Coins) → add_account a c g' ≡ none)
fill_genesis-supply_example =
    fill_genesis-supply ten hundred staker_address account_address create_tx as_is total_kept 2 1 3
      4 empty refl (omega arith)

abbrev docker : Network
docker = record { validators = 3; sentries = 1; local_native = false; subnet = (172, 18, 0, 0) }

abbrev validator_id : ℕ → Bytes
validator_id i = i ∷ []

abbrev sentry_id : ℕ → Bytes
sentry_id i = (50 + i) ∷ []

-- The identity alone.
abbrev peer : Bytes → Ip → ℕ → Bytes
peer id ip port = id

abbrev peer_reads :
    (id id' : Bytes) (ip ip' : Ip) (port port' : ℕ)
    → peer id ip port ≡ peer id' ip' port'
    → id ≡ id'
peer_reads id id' ip ip' port port' e = e

abbrev node : ℕ → NodeConfig
node = validator_node docker validator_id sentry_id peer

abbrev native : Network
native = record { validators = 4; sentries = 0; local_native = true; subnet = (172, 18, 0, 0) }

abbrev env : GeneratorEnvironment
env = record {
  num_of_validators = pos 4;
  num_of_sentry_nodes = pos 0;
  num_of_instances = pos 1;
  num_of_accounts_per_instance = pos 10;
  prod_like = false;
  local_native = true;
}

native_passes : check_generate env ≡ ok tt
unfolding check_generate
native_passes = refl

check_generate-ports_example :
    (4 ≤ 4)
    × (native.sentries ≡ 0)
    × ((i j port : ℕ)
        → i < 4
        → j < 4
        → Has port (port_list (validator_node native validator_id sentry_id peer i).ports)
        → Has port (port_list (validator_node native validator_id sentry_id peer j).ports)
        → i ≡ j)
check_generate-ports_example =
    check_generate-ports env native validator_id sentry_id peer refl refl refl refl native_passes
