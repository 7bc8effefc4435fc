-- ===== src/Gen/Genesis.antt =====
-- chain/genesis.go, and the loops of generator.go that fill the genesis. A set of coins is what it
-- has of every denomination. A panic is `none`: of an operation on a saved genesis, or of a text that
-- does not parse. The mutex is always free, since one goroutine generates.
pub mod Supply
use chain_stresser.Common.{
  ℕ, zero, suc, ◌+◌, Bool, true, false, Option, none, some, List, [], ◌∷◌, ◌++◌, if◌then◌else◌,
  ◌==◌, length,
}
use chain_stresser.Common.Options.{◌>>=◌}
use chain_stresser.Common.Bytes.{Bytes}
use chain_stresser.Common.Int.{ℤ, pos}

abbrev pub Coins : Type 0
Coins = Bytes → ℕ

abbrev pub add_coins : Coins → Coins → Coins
add_coins a b d = a d + b d

-- `Genesis`: of the module states, what the operations change.
pub record Genesis (Addr : Type 0) : Type 0 where
  pub finalized : Bool
  pub accounts : List Addr
  pub balances : List (Addr × Coins)
  pub supply : Coins
  pub gen_txs : List Bytes

-- `GenesisConfig`, and the defaults of `NewGenesis` for a chain ID and the template.
pub record GenesisConfig : Type 0 where
  pub app_version : Bytes
  pub chain_id : Bytes
  pub eth_chain_id : ℤ
  pub bond_denom : Bytes
  pub evm_enabled : Bool
  pub prod_like : Bool

pub data Template : Type 0 where
  genesis_evm : Template
  genesis_prod : Template
  genesis_plain : Template

abbrev pub or_default : Bytes → Bytes → Bytes
or_default d [] = d
or_default d (c ∷ s) = c ∷ s

abbrev pub or_default_int : ℤ → ℤ → ℤ
or_default_int d (pos zero) = d
or_default_int d (pos (suc n)) = pos (suc n)
or_default_int d (ℤ.negsuc n) = ℤ.negsuc n

-- `version`, `denom` and `chain` are the texts of the constants.
unfoldable pub with_genesis_defaults : Bytes → Bytes → Bytes → GenesisConfig → GenesisConfig
with_genesis_defaults version denom chain c = record c {
  app_version = or_default version c.app_version;
  bond_denom = or_default denom c.bond_denom;
  chain_id = or_default chain c.chain_id;
  eth_chain_id = or_default_int (pos 1337) c.eth_chain_id;
}

unfoldable pub template_of : GenesisConfig → Template
template_of c =
    if c.evm_enabled then genesis_evm else if c.prod_like then genesis_prod else genesis_plain

module _ {Addr : Type 0} where
  -- `verifyNotFinalized`
  abbrev pub unless_finalized : Genesis Addr → Option (Genesis Addr) → Option (Genesis Addr)
  unless_finalized g r = if g.finalized then none else r

  -- `AddAccount`, of the parsed balances
  unfoldable pub add_account : Addr → Option Coins → Genesis Addr → Option (Genesis Addr)
  add_account a balances g = unless_finalized g (do
    coins ← balances
    some (record g {
      accounts = g.accounts ++ a ∷ [];
      balances = g.balances ++ (a, coins) ∷ [];
      supply = add_coins g.supply coins;
    }))

  -- `AddValidator`; `tx` is the signed and encoded transaction that makes the validator.
  unfoldable pub add_validator : Option Bytes → Genesis Addr → Option (Genesis Addr)
  add_validator tx g =
      unless_finalized g (do b ← tx; some (record g { gen_txs = g.gen_txs ++ b ∷ [] }))

  -- `Save`; `sanitize` is what the SDK does to the balances.
  unfoldable pub save : (List (Addr × Coins) → List (Addr × Coins)) → Genesis Addr → Genesis Addr
  save sanitize g = record g { finalized = true; balances = sanitize g.balances }

  -- It is saved once for every node.
  unfoldable pub save_times :
      (List (Addr × Coins) → List (Addr × Coins)) → ℕ → Genesis Addr → Genesis Addr
  unfolding save
  save_times sanitize zero g = g
  save_times sanitize (suc n) g = save_times sanitize n (save sanitize g)

  -- The loops of `GenerateConfigs`, over the indices that are left.
  module _ (staker account : Option Coins) (staker_address : ℕ → Addr)
      (account_address : ℕ → ℕ → Addr) (create_validator : ℕ → Option Bytes)
      (sanitize : List (Addr × Coins) → List (Addr × Coins)) where
    -- the validators from an index on
    unfoldable pub add_validators : ℕ → ℕ → Genesis Addr → Option (Genesis Addr)
    unfolding add_account add_validator
    add_validators i zero g = some g
    add_validators i (suc n) g = do
      g' ← add_account (staker_address i) staker g
      g'' ← add_validator (create_validator i) g'
      add_validators (suc i) n g''

    -- the accounts of one instance
    unfoldable pub add_accounts : ℕ → ℕ → ℕ → Genesis Addr → Option (Genesis Addr)
    unfolding add_account
    add_accounts i j zero g = some g
    add_accounts i j (suc n) g = do
      g' ← add_account (account_address i j) account g
      add_accounts i (suc j) n g'

    unfoldable pub add_instances : ℕ → ℕ → ℕ → Genesis Addr → Option (Genesis Addr)
    unfolding add_accounts
    add_instances per i zero g = some g
    add_instances per i (suc n) g = do g' ← add_accounts i 0 per g; add_instances per (suc i) n g'

    -- What `GenerateConfigs` does to the genesis.
    unfoldable pub fill_genesis : ℕ → ℕ → ℕ → ℕ → Genesis Addr → Option (Genesis Addr)
    unfolding add_validators add_instances save_times
    fill_genesis validators sentries instances per g = do
      g' ← add_validators 0 validators g
      g'' ← add_instances per 0 instances g'
      some (save_times sanitize sentries (save_times sanitize validators g''))
