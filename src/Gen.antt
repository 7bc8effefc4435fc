-- ===== src/Gen.antt =====
-- generator.go and the parts of the package chain that it fills: the genesis, the nodes' ports and
-- addresses, and the peers of every node.
pub mod Genesis
pub mod Ports
pub mod Network
