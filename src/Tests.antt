-- ===== src/Tests.antt =====
-- The theorems applied to concrete inputs, which show that their hypotheses can hold. The parameters
-- of the model are instantiated in Instances.
pub mod Instances
pub mod Limits
pub mod Client
pub mod Loop
pub mod Replay
pub mod Payload
pub mod Eth
pub mod Aa
pub mod Wasm
pub mod Gen
pub mod Clients
pub mod Cmd
