-- ===== src/Gen/Network/Addresses.antt =====
-- generator.go: the addresses of the nodes in the docker network.
use chain_stresser.Common.{ℕ, ◌+◌, List}
use chain_stresser.Common.Bytes.{Bytes}
use chain_stresser.Gen.Network.{Ip, ip_in_subnet, Network}

module _ (net : Network) (validator_id sentry_id : ℕ → Bytes) (peer : Bytes → Ip → ℕ → Bytes) where
  abbrev nth_ip : ℕ → Ip
  nth_ip k = ip_in_subnet net.subnet (k + 1)
