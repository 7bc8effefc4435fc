-- ===== src/Aa/Factory.antt =====
-- eth/aa/light_account.go: the init code of an operation, and the accounts of the factory.
use chain_stresser.Common.Bytes.{Bytes}
