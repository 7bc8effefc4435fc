-- ===== src/Gen/Ports.antt =====
-- chain/types.go, chain/init.go and generator.go: the ports of a node.
use chain_stresser.Common.{ℕ, ◌+◌, ◌*◌, ◌≤◌, ◌<◌, ◌≡◌, ◌⊎◌, arith, List, [], ◌∷◌, All}

pub record Ports : Type 0 where
  pub rpc : ℕ
  pub p2p : ℕ
  pub api : ℕ
  pub grpc : ℕ
  pub grpc_web : ℕ
  pub pprof : ℕ
  pub prometheus : ℕ
  pub evm_rpc : ℕ
  pub evm_ws_port : ℕ
  pub proxy_app : ℕ

abbrev pub default_ports : Ports
default_ports = record {
  rpc = 26657;
  p2p = 26656;
  api = 10337;
  grpc = 9900;
  grpc_web = 9091;
  pprof = 6060;
  prometheus = 26660;
  evm_rpc = 8545;
  evm_ws_port = 8546;
  proxy_app = 26658;
}

unfoldable pub shift_ports : Ports → ℕ → Ports
shift_ports p offset = record {
  rpc = p.rpc + 100 * offset;
  p2p = p.p2p + 100 * offset;
  api = p.api + 100 * offset;
  grpc = p.grpc + 100 * offset;
  grpc_web = p.grpc_web + 100 * offset;
  pprof = p.pprof + 100 * offset;
  prometheus = p.prometheus + 100 * offset;
  evm_rpc = p.evm_rpc + 100 * offset;
  evm_ws_port = p.evm_ws_port + 100 * offset;
  proxy_app = p.proxy_app + 100 * offset;
}

abbrev pub port_list : Ports → List ℕ
port_list p =
    p.rpc ∷ p.p2p ∷ p.api ∷ p.grpc ∷ p.grpc_web ∷ p.pprof ∷ p.prometheus ∷ p.evm_rpc ∷ p.evm_ws_port
    ∷ p.proxy_app ∷ []

abbrev pub Has : ℕ → List ℕ → Type 0
Has x [] = ⊥
Has x (y ∷ ys) = (x ≡ y) ⊎ Has x ys

abbrev pub Differ : List ℕ → Type 0
Differ [] = Unit
Differ (x ∷ xs) = (Has x xs → ⊥) × Differ xs

-- Two local validators among the first 206 share no port.
shared_port :
    (i j port : ℕ)
    → i < 206
    → j < 206
    → Has port (port_list (shift_ports default_ports i))
    → Has port (port_list (shift_ports default_ports j))
    → i ≡ j
unfolding shift_ports
shared_port i j port hi hj p q = ground arith

own_ports : (i : ℕ) → Differ (port_list (shift_ports default_ports i))
unfolding shift_ports
own_ports i = ground arith

valid_ports :
    (i : ℕ)
    → i < 206
    → All (λ p. (1024 < p) × (p ≤ 65535)) (port_list (shift_ports default_ports i))
unfolding shift_ports
valid_ports i h = ground arith

-- The ten ports of a local validator are all different, above 1024 and at most 65535, and no other
-- one of the first 206 local validators has any of them.
pub shift_ports-Differ :
    (i : ℕ)
    → i < 206
    → Differ (port_list (shift_ports default_ports i))
      × All (λ p. (1024 < p) × (p ≤ 65535)) (port_list (shift_ports default_ports i))
      × ((j port : ℕ)
          → j < 206
          → Has port (port_list (shift_ports default_ports i))
          → Has port (port_list (shift_ports default_ports j))
          → i ≡ j)
shift_ports-Differ i h =
    (own_ports i, valid_ports i h, λ j port hj p q. shared_port i j port h hj p q)
