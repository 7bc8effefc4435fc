-- ===== src/Aa.antt =====
-- The package eth/aa: user operations of ERC-4337 and the accounts that send them.
pub mod UserOp
pub mod Address
pub mod Packing
pub mod Fees
pub mod Signer
pub mod Account
pub mod Factory
pub mod Created
pub mod Bundler
