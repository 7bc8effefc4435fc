-- ===== src/Chain.antt =====
-- chain/: the client of the node, and the errors from which the tool reads an account's sequence.
pub mod Decimal
pub mod Sequence
pub mod Retry
pub mod Broadcast
pub mod Signing
