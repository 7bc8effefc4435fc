-- ===== src/Aa/Address.antt =====
-- eth/aa: which addresses go-ethereum's `BytesToAddress` makes of 20 bytes and of an ABI word.
use chain_stresser.Common.{◌≡◌, refl, arith, length, length-append, ◌++◌, drop-append}
use chain_stresser.Common.Bytes.{Bytes}
use chain_stresser.Common.BigEndian.{zeros, length-zeros}
use chain_stresser.Aa.UserOp.{Geth}

module _ (geth : Geth) where
  pub address_of_bytes : (b : Bytes) → length b ≡ 20 → geth.bytes_to_address b ≡ b
  address_of_bytes b h = rw (geth.bytes_to_address-eq b, h) refl

  -- The ABI puts an address behind 12 zero bytes.
  pub address_of_word : (b : Bytes) → length b ≡ 20 → geth.bytes_to_address (zeros 12 ++ b) ≡ b
  address_of_word b h =
      let word : length (zeros 12 ++ b) ≡ 32 =
        omega (arith, length-append (zeros 12) b, length-zeros 12, h) in
      rw (geth.bytes_to_address-eq (zeros 12 ++ b), word)
        (drop-append (zeros 12) b 12 (length-zeros 12))
