-- ===== src/Replay.antt =====
-- `StressReplay` (stresser.go) and the package replay: blocks of another chain are fetched, their
-- transactions fuzzed if that is enabled, and broadcast one after the other.
pub mod Fuzzer
pub mod Block
pub mod Sniffer
