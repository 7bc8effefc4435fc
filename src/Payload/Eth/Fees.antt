-- ===== src/Payload/Eth/Fees.antt =====
-- payload/eth_*.go: the gas prices that the constructors settle on.
use chain_stresser.Common.{
  ℕ, ◌+◌, ◌*◌, ◌%◌, ◌^◌, ◌≤◌, ◌<◌, ◌≡◌, refl, ◌⊎◌, inl, inr, arith, true, Option, some, ok, ltb,
  ltb→lt, ltb-false, Bool-cases,
}
use chain_stresser.Common.Bytes.{Bytes}
use chain_stresser.Payload.Bank.{Coin}
use chain_stresser.Payload.Eth.{
  EthSendProvider, EthDeployProvider, EthCallProvider, eip1559_initial_base_fee,
  override_min_gas_price, eth_send_provider, eth_deploy_provider, eth_call_provider,
  eth_internal_call_provider, default_iterations, new_eth_send_provider, new_eth_deploy_provider,
  new_eth_call_provider, new_eth_internal_call_provider,
}

-- The price covers the base fee and the configured price, and is one of them.
abbrev pub IsCovering : ℕ → ℕ → Type 0
IsCovering configured price =
    (eip1559_initial_base_fee ≤ price)
    × (configured ≤ price)
    × ((price ≡ configured) ⊎ (price ≡ eip1559_initial_base_fee))

override-IsCovering : (c : Coin) → IsCovering c.amount (override_min_gas_price c).amount
unfolding override_min_gas_price
override-IsCovering c = elim (Bool-cases (ltb c.amount eip1559_initial_base_fee)) [
  | inl low ↦ rw low (omega arith, omega (arith, ltb→lt _ _ low), inr refl)
  | inr high ↦ rw high (omega (arith, ltb-false _ _ high), omega arith, inl refl)
]

default_iterations_pos : (n : ℕ) → 0 < default_iterations n
unfolding default_iterations
default_iterations_pos n = ground arith

default_iterations_of_pos : (n : ℕ) → 0 < n → default_iterations n ≡ n
unfolding default_iterations
default_iterations_of_pos n h = ground arith

gas_fits :
    (n : ℕ)
    → 28809 + 2500 * n < 2 ^ 64
    → (28809 + 2500 * default_iterations n) % 2 ^ 64 ≡ 28809 + 2500 * default_iterations n
unfolding default_iterations
gas_fits n h = ground arith

module _ (parse_coin : Bytes → Option Coin) (price amount : Bytes) (c a : Coin)
    (price_ok : parse_coin price ≡ some c) (amount_ok : parse_coin amount ≡ some a) where
  -- From texts that parse, and with a contract whose interface parses, the four constructors make a
  -- provider whose gas price is the larger of the configured one and the initial base fee.
  pub providers-IsCovering :
      (iterations : ℕ)
      → ((p : EthSendProvider) × (new_eth_send_provider parse_coin price amount ≡ ok p)
          × (p.send_amount ≡ a)
          × IsCovering c.amount p.min_gas_price.amount)
        × ((p : EthDeployProvider) × (new_eth_deploy_provider parse_coin true price ≡ ok p)
            × IsCovering c.amount p.min_gas_price.amount)
        × ((p : EthCallProvider) × (new_eth_call_provider parse_coin true price ≡ ok p)
            × (p.contract_address ≡ 0)
            × IsCovering c.amount p.min_gas_price.amount)
        × ((p : EthCallProvider) × (new_eth_internal_call_provider parse_coin true price iterations
              ≡ ok p)
            × (p.contract_address ≡ 0)
            × IsCovering c.amount p.min_gas_price.amount)
  unfolding new_eth_send_provider new_eth_deploy_provider new_eth_call_provider
      new_eth_internal_call_provider
  providers-IsCovering iterations = (
    (eth_send_provider a c, rw (amount_ok, price_ok) refl, refl, override-IsCovering c),
    (eth_deploy_provider c, rw price_ok refl, override-IsCovering c),
    (eth_call_provider c, rw price_ok refl, refl, override-IsCovering c),
    (
      eth_internal_call_provider (default_iterations iterations) c,
      rw price_ok refl,
      refl,
      override-IsCovering c,
    ),
  )

  -- The internal calls' gas grows by 2500 with every iteration, 100 of them when none are asked for,
  -- as long as the limit fits into 64 bits.
  pub internal_call_gas :
      (iterations : ℕ)
      → 28809 + 2500 * iterations < 2 ^ 64
      → (p : EthCallProvider) × (new_eth_internal_call_provider parse_coin true price iterations
          ≡ ok p)
        × (0 < p.iterations)
        × (0 < iterations → p.iterations ≡ iterations)
        × (p.max_gas_limit ≡ 28809 + 2500 * p.iterations)
  unfolding new_eth_internal_call_provider
  internal_call_gas iterations fits = (
    eth_internal_call_provider (default_iterations iterations) c,
    rw price_ok refl,
    default_iterations_pos iterations,
    default_iterations_of_pos iterations,
    gas_fits iterations fits,
  )
