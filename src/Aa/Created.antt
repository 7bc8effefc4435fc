-- ===== src/Aa/Created.antt =====
-- eth/aa/light_account.go: what `NewLightAccount` checks and remembers.
use chain_stresser.Common.{
  ◌++◌, ℕ, ◌≡◌, ◌≢◌, refl, inl, inr, true, false, some, ok, err, ◌==◌, ==_iff, ltb, Bool-cases,
  length,
}
use chain_stresser.Common.Bytes.{Bytes, eq_bytes}
use chain_stresser.Common.Int.{pos}
use chain_stresser.Common.BigEndian.{zeros}
use chain_stresser.Aa.Address.{address_of_word}
use chain_stresser.Aa.UserOp.{Geth, zero_address}
use chain_stresser.Aa.Signer.{chain_id_mismatch}
use chain_stresser.Aa.Account.{
  LightAccount, Node, Abi, salt_big, create_account_call_data, resolve_address, code,
  check_deployed, new_light_account,
}

zero_unset : eq_bytes zero_address zero_address ≡ true
unfolding eq_bytes
zero_unset = refl

module _ (node : Node) (abi : Abi) (geth : Geth) (entrypoint factory owner : Bytes) (salt : ℕ) where
  -- The account before its address is known.
  abbrev pub fresh : LightAccount
  fresh = record {
    entrypoint_address = entrypoint;
    account_factory_address = factory;
    account_address = zero_address;
    eoa_owner = owner;
    salt = salt;
    is_deployed = false;
  }

  -- On a node that tells a chain ID, whose factory answers with the ABI word of an address that is not
  -- zero, and which can read the code at that address: with another chain ID than the node's, no
  -- account is made; with the node's, the account has the factory's address, and is taken as deployed
  -- exactly when there is code at it.
  pub new_light_account-address :
      (chain rpc : ℕ) (call_data address bytecode : Bytes)
      → node.chain_id ≡ some (pos rpc)
      → abi.pack_create_account owner (salt_big fresh salt) ≡ some call_data
      → node.call_contract owner factory call_data ≡ some (zeros 12 ++ address)
      → length address ≡ 20
      → eq_bytes address zero_address ≡ false
      → node.code_at address ≡ some bytecode
      → (rpc ≢ chain
          → new_light_account node abi geth true (pos chain) entrypoint factory owner salt
            ≡ err chain_id_mismatch)
        × (rpc ≡ chain
            → new_light_account node abi geth true (pos chain) entrypoint factory owner salt
              ≡ ok (record fresh {
                account_address = address;
                is_deployed = ltb 0 (length bytecode);
              }))
  unfolding new_light_account resolve_address create_account_call_data check_deployed code
  new_light_account-address chain rpc call_data address bytecode id packs calls twenty set reads = (
    λ other. elim (Bool-cases (rpc == chain)) [
      | inl same ↦ absurd (other ((==_iff rpc chain).0 same))
      | inr differ ↦ rw (id, differ) refl
    ],
    λ same.
        rw
          (
            id,
            (==_iff rpc chain).1 same,
            zero_unset,
            packs,
            calls,
            address_of_word geth address twenty,
            set,
            reads,
          )
          refl,
  )
