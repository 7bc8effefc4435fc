-- ===== src/Gen/Network/Peers.antt =====
-- generator.go: whom a validator connects to, and which node's ports are open.
use chain_stresser.Common.{
  ℕ, zero, suc, ◌+◌, ◌<◌, ◌≡◌, refl, arith, List, [], ◌∷◌, ◌++◌, map, ◌==◌, if◌then◌else◌,
}
use chain_stresser.Common.Bytes.{Bytes}
use chain_stresser.Gen.Network.{
  Ip, NodeConfig, Network, validator_node, peer_address, validators_from, finish_validator,
  sentry_node, sentries_from, all_nodes,
}

-- How many nodes have their ports open.
abbrev pub exposed : List NodeConfig → ℕ
exposed [] = 0
exposed (node ∷ nodes) = (if node.ports_exposed then 1 else 0) + exposed nodes

exposed-append : (xs ys : List NodeConfig) → exposed (xs ++ ys) ≡ exposed xs + exposed ys
exposed-append [] ys = omega arith
exposed-append (x ∷ xs) ys = omega (arith, exposed-append xs ys)

module _ (net : Network) (validator_id sentry_id : ℕ → Bytes) (peer : Bytes → Ip → ℕ → Bytes) where
  abbrev address : NodeConfig → Bytes
  address = peer_address net validator_id sentry_id peer

  exposed_finished :
      (nodes : List NodeConfig)
      → exposed (map (finish_validator net validator_id sentry_id peer) nodes) ≡ exposed nodes
  unfolding finish_validator
  exposed_finished [] = refl
  exposed_finished (node ∷ nodes) = omega (arith, exposed_finished nodes)

  later_validators :
      (i n : ℕ) → exposed (validators_from net validator_id sentry_id peer (suc i) n) ≡ 0
  unfolding validators_from validator_node
  later_validators i zero = refl
  later_validators i (suc n) = ground (arith, later_validators (suc i) n)

  later_sentries : (i n : ℕ) → exposed (sentries_from net validator_id sentry_id peer (suc i) n) ≡ 0
  unfolding sentries_from sentry_node
  later_sentries i zero = refl
  later_sentries i (suc n) = ground (arith, later_sentries (suc i) n)

  first_validator :
      (n : ℕ)
      → 0 < n
      → exposed (validators_from net validator_id sentry_id peer 0 n)
        ≡ (if net.sentries == 0 then 1 else 0)
  unfolding validators_from validator_node
  first_validator zero h = elim h [ ]
  first_validator (suc n) h = ground (arith, later_validators 0 n)

  first_sentry :
      (n : ℕ)
      → exposed (sentries_from net validator_id sentry_id peer 0 n) ≡ (if n == 0 then 0 else 1)
  unfolding sentries_from sentry_node
  first_sentry zero = refl
  first_sentry (suc n) = ground (arith, later_sentries 0 n)

  -- A network with a validator has exactly one node whose ports are open.
  pub all_nodes-exposed :
      0 < net.validators → exposed (all_nodes net validator_id sentry_id peer) ≡ 1
  unfolding all_nodes
  all_nodes-exposed some_validators = ground (
    arith,
    exposed-append
        (map (finish_validator net validator_id sentry_id peer)
          (validators_from net validator_id sentry_id peer 0 net.validators))
        (sentries_from net validator_id sentry_id peer 0 net.sentries),
    exposed_finished (validators_from net validator_id sentry_id peer 0 net.validators),
    first_validator net.validators some_validators,
    first_sentry net.sentries,
  )
