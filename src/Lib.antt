-- ===== src/Lib.antt =====
-- chain-stresser: a load generator for Cosmos and EVM chains, and what it does with transactions.
--
-- The program prepares signed transactions for a list of accounts and broadcasts them to a node, or
-- replays the blocks of another chain. Its parts, from the inside out, with the files that model them:
--
--   pkg/ratelimit   RateLimit. Config: the configuration (config.go, errors.go). Limiter: `NewLimiter`,
--                   `Wait`, `TryConsume`, `Tokens`, `SetRate` (bucket.go). Multi: `MultiLimiter`,
--                   `NewMultiLimiter`, `WaitForTransaction` with its three stages (bucket.go) and
--                   `ExtractGasLimit` (gas.go). Bounds, Chunks, Waits and Live hold the proofs.
--   chain/client.go Chain. Decimal: `strconv.ParseUint`. Sequence: `checkSequence`, `checkNonce`,
--                   `IsSequenceError` and the two regular expressions. Retry: retry-go. Broadcast:
--                   `Client.Broadcast` as a function of the node's replies. Signing: `buildAndSignTx`.
--   stresser.go     Stress. Pipeline: the generators, signers and the collector of `Stress`. Client:
--                   `buildBroadcastClient`. Account: the broadcast loop of an account. Run: both together.
--                   Initial: `createAndBroadcastInitialTxs`, with Workers and Ends for proofs about its
--                   pool.
--                   Replay. Block: `StressReplay` on one block, `handleFallbackBroadcast`,
--                   `categorizeError`. Fuzzer: `fuzzTransactions`.
--   replay          Replay. Fuzzer: fuzzer.go. Sniffer: `run` of sniffer.go, its channels, and
--                   `GetNextBlockTxs` of payload/txns_replay_stress.go.
--   payload         Payload. Base: payload.go. Bank: bank_send_stress.go, bank_multi_send_stress.go.
--                   Eth: the eth_send, eth_call, eth_deploy and eth_internal_call stresses, with Signer
--                   for eth_signer.go. UserOp: eth_userop_stress.go. Wasm: the three wasm stresses, with
--                   Checksum for wasm_checksum.go. Exchange: exchange_batch_orders_stress.go.
--                   Mixed: mixed_payload.go.
--   eth/aa          Aa. UserOp: userop.go. Signer: signer.go. Account: light_account.go. Bundler:
--                   bundler_client.go and entrypoint.go. Address, Packing, Fees, Factory and Created hold proofs.
--   generator.go    Gen. Genesis: `Genesis` of chain/genesis.go and the loops that fill it. Ports:
--                   `shiftPorts`, with chain/types.go and chain/init.go. Network: the nodes of
--                   `GenerateConfigs`, and the checks of the command generate.
--   cmd             Cmd: `applyStresserConfigFromYAML`, `readAccounts` and the checks of tx-replay in
--                   cmd/chain-stresser/main.go. Commands: the commands that run a stress, with Replay
--                   for tx-replay.
--
-- Common holds what they share, and Tests the theorems at concrete inputs.
--
-- How the code is modelled. A method takes the state and returns the new one beside its result; an
-- error is a value. Goroutines that meet at channels, or at a pool of workers, are a step relation, one
-- step for each access of a channel or call of a worker, so that every interleaving is covered
-- (Stress.Pipeline, Stress.Initial, Replay.Sniffer). A panic of an index is `none` or a constructor of
-- its own. An `int` is a ℤ, an unsigned number a natural number, with the
-- wrap-around of conversions and subtractions written out (Common.Int); a bound on an argument is a
-- hypothesis where the code relies on it.
--
-- A provider's fields that change, such as a contract's address or the nonces of light accounts, are
-- its state: `GenerateInitialTx` and `GenerateTx` return it, and Stress.Initial runs the former over the
-- accounts, so that what is generated later is that of the provider that the loop leaves behind.
--
-- Fuel. The loop over chunks has the number that remains as its fuel, since every round takes at least
-- one off. The loop of an account has no bound of its own: a
-- node may turn it back again and again; against a node that keeps its sequence two rounds more than
-- there are transactions are enough. The loop over the pages of wasm codes goes on for as long as the
-- node has pages; one round for each is enough.
--
-- Numbers of go-ethereum's `big.Int` are integers, and their bytes are computed (Common.BigEndian).
--
-- Parameters. float64 (Common.Float), the token bucket of golang.org/x/time/rate with what its
-- documentation promises, retry-go with the behaviour of `UntilSucceeded`, the codes of the Cosmos SDK's
-- errors, its transaction codec and signing, math/rand, the key and address types, and the node. So are
-- go-ethereum's cryptography, ABI encoding and helpers on bytes, the decimals of cosmossdk.io/math, the
-- wasm contract's messages, and the text of a peer's address. Tests instantiates each of them.
--
-- Not modelled: logging and pace reports, timing, cancellation of the context while transactions are
-- prepared, the account queries, queries of the Ethereum
-- clients, which only pass calls on, the files and keys of a generated network, eth/jsonrpc, which is a copy of another project's library, and
-- generated bindings.
pub mod Common
pub mod RateLimit
pub mod Chain
pub mod Stress
pub mod Aa
pub mod Payload
pub mod Replay
pub mod Gen
pub mod Cmd
pub mod Tests
