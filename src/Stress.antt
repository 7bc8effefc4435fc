-- ===== src/Stress.antt =====
-- stresser.go, `Stress`: the initial transactions, the pipeline that prepares the others, the broadcast
-- that the accounts share, and the loop of each account.
pub mod Client
pub mod Transparent
pub mod Account
pub mod Pipeline
pub mod Run
pub mod Initial
