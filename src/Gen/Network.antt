-- ===== src/Gen/Network.antt =====
-- generator.go: the configuration of the nodes, without the files that hold it, and the checks of the
-- command generate. A node's identity stands for its keys; the text of a peer's address and the
-- parsing of the subnet are parameters. A panic is `none`.
pub mod Peers
pub mod Addresses
pub mod Native
use chain_stresser.Common.{
  ℕ, zero, suc, ◌+◌, ◌*◌, ◌%◌, Bool, true, false, not, ◌&&◌, Option, none, some, List, [], ◌∷◌,
  ◌++◌, map, Result, ok, err, ◌>>◌, if◌then◌else◌, ltb, ◌==◌, length,
}
use chain_stresser.Common.Bytes.{Bytes, eq_bytes}
use chain_stresser.Common.Int.{ℤ, pos, ltb_ℤ}
use chain_stresser.Gen.Ports.{Ports, default_ports, shift_ports}

-- The four bytes of an IPv4 address.
abbrev pub Ip : Type 0
Ip = ℕ × ℕ × ℕ × ℕ

pub record GeneratorEnvironment : Type 0 where
  pub num_of_validators : ℤ
  pub num_of_sentry_nodes : ℤ
  pub num_of_instances : ℤ
  pub num_of_accounts_per_instance : ℤ
  pub prod_like : Bool
  pub local_native : Bool

pub data GenerateError : Type 0 where
  too_many_validators : GenerateError
  sentries_with_native : GenerateError

abbrev pub must_not : {E : Type 0} → Bool → E → Result E (Unit {0})
must_not true e = err e
must_not false e = ok tt

-- The checks in `RunE` of generate.
unfoldable pub check_generate : GeneratorEnvironment → Result GenerateError (Unit {0})
check_generate env =
    if env.local_native
    then (must_not (ltb_ℤ (pos 4) env.num_of_validators) too_many_validators
        >> must_not (ltb_ℤ (pos 0) env.num_of_sentry_nodes) sentries_with_native)
    else ok tt

-- The two panics at the top of `GenerateConfigs`.
unfoldable pub check_counts : GeneratorEnvironment → Option (Unit {0})
check_counts env =
    if not (ltb_ℤ (pos 0) env.num_of_instances)
    then none
    else if not (ltb_ℤ (pos 0) env.num_of_validators)
    then none
    else some tt

-- `filterStringValue`
unfoldable pub filter_string_value : List Bytes → Bytes → List Bytes
filter_string_value [] filter = []
filter_string_value (v ∷ vs) filter =
    let rest = filter_string_value vs filter in if not (eq_bytes v filter) then v ∷ rest else rest

-- `ipInSubnet` from the first address of the subnet; the last octet is a byte.
unfoldable pub ip_in_subnet : Ip → ℕ → Ip
ip_in_subnet (a, b, c, d) offset = (a, b, c, (d + (offset + 1)) % 256)

-- `makeIntRange`, from the start and the length
unfoldable pub make_int_range : ℕ → ℕ → List ℕ
make_int_range start zero = []
make_int_range start (suc n) = start ∷ make_int_range (suc start) n

-- `NodeConfig`, with the lists of peers that are joined by commas.
pub record NodeConfig : Type 0 where
  pub peer_id : Bytes
  pub ip_addr : Ip
  pub ports : Ports
  pub persistent_peers : List Bytes
  pub private_peer_ids : List Bytes
  pub ports_exposed : Bool
  pub depends_on : List ℕ
  pub is_validator : Bool

-- The counts, and where the nodes run.
pub record Network : Type 0 where
  pub validators : ℕ
  pub sentries : ℕ
  pub local_native : Bool
  pub subnet : Ip

module _ (net : Network) (validator_id sentry_id : ℕ → Bytes)
    -- the text of a peer, of its identity, address and port
    (peer : Bytes → Ip → ℕ → Bytes) where
  -- A validator's configuration when it is first made.
  unfoldable pub validator_node : ℕ → NodeConfig
  unfolding ip_in_subnet shift_ports
  validator_node i = record {
    peer_id = validator_id i;
    ip_addr = if not net.local_native then ip_in_subnet net.subnet (i + 1) else (127, 0, 0, 1);
    ports = if net.local_native then shift_ports default_ports i else default_ports;
    persistent_peers = [];
    private_peer_ids = [];
    ports_exposed = net.sentries == 0 && i == 0;
    depends_on = [];
    is_validator = true;
  }

  abbrev pub peer_address : NodeConfig → Bytes
  peer_address node = peer node.peer_id node.ip_addr node.ports.p2p

  unfoldable pub validators_from : ℕ → ℕ → List NodeConfig
  unfolding validator_node
  validators_from i zero = []
  validators_from i (suc n) = validator_node i ∷ validators_from (suc i) n

  abbrev pub first_validators : List NodeConfig
  first_validators = validators_from 0 net.validators

  abbrev pub validator_peers : List Bytes
  validator_peers = map peer_address first_validators

  abbrev pub validator_ids : List Bytes
  validator_ids = map (λ node. node.peer_id) first_validators

  -- The last loop of `GenerateConfigs`.
  unfoldable pub finish_validator : NodeConfig → NodeConfig
  unfolding filter_string_value
  finish_validator node = record node {
    persistent_peers = filter_string_value validator_peers (peer_address node);
    private_peer_ids = validator_ids;
  }

  unfoldable pub sentry_node : ℕ → NodeConfig
  unfolding ip_in_subnet make_int_range
  sentry_node i = record {
    peer_id = sentry_id i;
    ip_addr = ip_in_subnet net.subnet (net.validators + i + 1);
    ports = default_ports;
    persistent_peers = validator_peers;
    private_peer_ids = validator_ids;
    ports_exposed = i == 0;
    depends_on = make_int_range 0 net.validators;
    is_validator = false;
  }

  unfoldable pub sentries_from : ℕ → ℕ → List NodeConfig
  unfolding sentry_node
  sentries_from i zero = []
  sentries_from i (suc n) = sentry_node i ∷ sentries_from (suc i) n

  -- The nodes that are left in `allNodeConfigs`.
  unfoldable pub all_nodes : List NodeConfig
  unfolding validators_from finish_validator sentries_from
  all_nodes = map finish_validator first_validators ++ sentries_from 0 net.sentries
