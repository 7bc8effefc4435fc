-- ===== src/Payload/Eth/Provision.antt =====
-- payload/eth_call_stress.go and eth_internal_call_stress.go below the loop of stresser.go over the
-- accounts' initial transactions: which contract the calls go to.
use chain_stresser.Common.{
  ℕ, suc, ◌≡◌, ◌≢◌, refl, ap, arith, Option, none, some, List, [], ◌∷◌, Result, ok, err, ◌>>=◌,
  ◌==◌, ==_iff, Bool-cases, inl, inr,
}
use chain_stresser.Common.Bytes.{Bytes}
use chain_stresser.Common.Int.{ℤ, to_int}
use chain_stresser.Payload.Base.{TxRequest, BaseTx}
use chain_stresser.Payload.Eth.{
  EthMsg, EthError, contract_address_not_set, EthCallProvider, deployment, call, packed,
  eth_call_generate_tx, eth_internal_call_generate_tx, eth_call_generate_initial_tx,
}
use chain_stresser.Stress.Initial.{initial_request, after_initial, create_initial_txs}

-- While no contract is deployed, both providers refuse to generate a transaction, whatever the
-- encoding of the call gives.
pub calls_refused :
    {Key : Type 0} (p : EthCallProvider) (req : TxRequest Key) (pack : Option Bytes)
    (pack_int : ℤ → Option Bytes)
    → p.contract_address ≡ 0
    → (eth_call_generate_tx pack p req ≡ err contract_address_not_set)
      × (eth_internal_call_generate_tx pack_int p req ≡ err contract_address_not_set)
unfolding eth_call_generate_tx eth_internal_call_generate_tx
calls_refused p req pack pack_int unset = (refused pack, refused (pack_int (to_int p.iterations)))
  where
    refused :
        (o : Option Bytes)
        → (packed p o >>= λ b. ok (call req p.max_gas_limit p b)) ≡ err contract_address_not_set
    refused none = rw unset refl
    refused (some b) = rw unset refl

module _ {Key N : Type 0} (address : Key → ℕ) (create_address : ℕ → ℕ → ℕ) (bin : Bytes)
    (query : N → Key → Result EthError (ℕ × ℕ) × N) where
  -- The world of the loop: the node, and the provider.
  abbrev pub World : Type 0
  World = N × EthCallProvider

  abbrev pub query_account : World → Key → Result EthError (ℕ × ℕ) × World
  query_account (n, p) key = let (r, n') = query n key in (r, (n', p))

  abbrev pub initial_tx :
      World → TxRequest Key → Result EthError (Option (BaseTx Key EthMsg)) × World
  initial_tx (n, p) req =
      let (o, p') = eth_call_generate_initial_tx address create_address bin p req in (ok o, (n, p'))

  -- The node knows every account.
  abbrev pub AllFound : N → List Key → Type 0
  AllFound n [] = Unit
  AllFound n (key ∷ keys) =
      (account : ℕ × ℕ) × ((query n key).0 ≡ ok account) × AllFound (query n key).1 keys

  none_beyond_first :
      (p : EthCallProvider) (req : TxRequest Key) (k : ℕ)
      → req.from_idx ≡ suc k
      → eth_call_generate_initial_tx address create_address bin p req ≡ (none, p)
  unfolding eth_call_generate_initial_tx
  none_beyond_first p req k e = elim (Bool-cases (req.from_idx == 0)) [
    | inl first ↦ absurd (omega (arith, e, (==_iff req.from_idx 0).0 first))
    | inr later ↦ rw later refl
  ]

  -- Beyond the first account there is nothing to make.
  later_accounts :
      (k : ℕ) (keys : List Key) (n : N) (p : EthCallProvider)
      → AllFound n keys
      → (n' : N) × (create_initial_txs query_account initial_tx (suc k) keys (n, p)
          ≡ (ok [], (n', p)))
  unfolding create_initial_txs
  later_accounts k [] n p h = (n, refl)
  later_accounts k (key ∷ keys) n p (account, found, h) =
      let (n', e) = later_accounts (suc k) keys (query n key).1 p h in
      (
        n',
        rw
            (
              create_initial_txs,
              found,
              none_beyond_first p (initial_request (suc k) key account) k refl,
            )
            (ap (after_initial ((query n key).1, p) (ok none)) e),
      )

  -- One transaction is made, and the provider has the address of its contract.
  one_deployment :
      (key : Key) (keys : List Key) (n : N) (p : EthCallProvider) (number sequence : ℕ)
      → (query n key).0 ≡ ok (number, sequence)
      → AllFound (query n key).1 keys
      → (n' : N) × (create_initial_txs query_account initial_tx 0 (key ∷ keys) (n, p) ≡ (
        ok (
            deployment
              (initial_request 0 key (number, sequence))
              p.max_gas_limit_deployment
              p.min_gas_price
              bin
            ∷ []),
        (n', record p { contract_address = create_address (address key) sequence }),
      ))
  unfolding create_initial_txs eth_call_generate_initial_tx
  one_deployment key keys n p number sequence found h =
      let p' : EthCallProvider = record p {
        contract_address = create_address (address key) sequence;
      } in
      let (n', e) = later_accounts 0 keys (query n key).1 p' h in
      (
        n',
        rw (create_initial_txs, found)
            (ap
              (after_initial ((query n key).1, p')
                (ok (
                  some (
                    deployment (initial_request 0 key (number, sequence)) p.max_gas_limit_deployment
                      p.min_gas_price bin))))
              e),
      )

  called :
      (p : EthCallProvider) (req : TxRequest Key) (b : Bytes)
      → p.contract_address ≢ 0
      → eth_call_generate_tx (some b) p req ≡ ok (call req p.max_gas_limit p b)
  unfolding eth_call_generate_tx
  called p req b set = elim (Bool-cases (p.contract_address == 0)) [
    | inl unset ↦ absurd (set ((==_iff p.contract_address 0).0 unset))
    | inr other ↦ rw other refl
  ]

  -- When the node knows every account, and the address of the first account's contract is not the
  -- zero address, the loop over the initial transactions makes exactly one, which is unsigned and
  -- without a receiver: the first account deploys the contract's code with its sequence as the nonce. From then on every generated call is one of that
  -- contract, with the nonce of its own request and the provider's gas and price.
  pub deployed_then_called :
      (key : Key) (keys : List Key) (n : N) (p : EthCallProvider) (number sequence : ℕ)
      → (query n key).0 ≡ ok (number, sequence)
      → AllFound (query n key).1 keys
      → create_address (address key) sequence ≢ 0
      → (n' : N) × (p' : EthCallProvider) × (create_initial_txs query_account initial_tx 0
            (key ∷ keys)
            (n, p)
          ≡ (
            ok (
                (record {
                  from = record { name = []; key = key; number = number; sequence = sequence };
                  msgs =
                      (record {
                        raw = record {
                          nonce = sequence;
                          to = none;
                          value = 0;
                          gas = p.max_gas_limit_deployment;
                          gas_price = p.min_gas_price.amount;
                          input = bin;
                        };
                        signature = none;
                        from = none;
                      })
                      ∷ [];
                  tx_bytes = [];
                  from_idx = 0;
                  tx_idx = 0;
                })
                ∷ []),
            (n', p'),
          ))
        × ((req : TxRequest Key) (b : Bytes)
            → eth_call_generate_tx (some b) p' req
              ≡ ok (record {
                from = req.from;
                msgs =
                    (record {
                      raw = record {
                        nonce = req.from.sequence;
                        to = some (create_address (address key) sequence);
                        value = 0;
                        gas = p.max_gas_limit;
                        gas_price = p.min_gas_price.amount;
                        input = b;
                      };
                      signature = none;
                      from = none;
                    })
                    ∷ [];
                tx_bytes = [];
                from_idx = req.from_idx;
                tx_idx = req.tx_idx;
              }))
  deployed_then_called key keys n p number sequence found h set =
      let p' : EthCallProvider = record p {
        contract_address = create_address (address key) sequence;
      } in
      let (n', e) = one_deployment key keys n p number sequence found h in
      (n', p', e, λ req b. called p' req b set)
