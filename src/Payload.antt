-- ===== src/Payload.antt =====
-- The package payload: what the transactions hold, the bank transfers, and the mixed payload.
pub mod Base
pub mod Bank
pub mod Transfers
pub mod Eth
pub mod UserOp
pub mod Wasm
pub mod Exchange
pub mod Mixed
