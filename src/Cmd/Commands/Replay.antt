-- ===== src/Cmd/Commands/Replay.antt =====
-- cmd/chain-stresser/main.go: the command tx-replay, with the sniffer that it starts and closes.
use chain_stresser.Common.{Option, none, some, Result, ok, err, String, false}
use chain_stresser.Common.Float.{Floats}
use chain_stresser.Common.Int.{ℤ}
use chain_stresser.Cmd.{StressConfig, ReplayError, check_replay}
use chain_stresser.Cmd.Commands.{Outcome, not_connected, failed, exited, finished}

abbrev without_await : {F : Type 0} → StressConfig F → StressConfig F
without_await cfg = record {
  chain_id = cfg.chain_id;
  eth_chain_id = cfg.eth_chain_id;
  min_gas_price = cfg.min_gas_price;
  node_address = cfg.node_address;
  grpc_address = cfg.grpc_address;
  await_tx_confirmation = false;
  num_of_transactions = cfg.num_of_transactions;
  rate_limit = cfg.rate_limit;
}

module _ (fl : Floats) {W E Client Provider Sniffer : Type 0}
    (connect : String → String → String → Option Client)
    (new_sniffer : String → ℤ → ℤ → W → Result E Sniffer × W) (start : Sniffer → W → W)
    (close : Sniffer → W → W) (new_provider : Client → Sniffer → W → Result E Provider × W)
    (stress_replay : StressConfig fl.Float → Provider → W → Result E (Unit {0}) × W) where
  -- `os.Exit` leaves the sniffer open; the deferred `Close` is for the two ways to return.
  unfoldable replay_end : Sniffer → Result E (Unit {0}) × W → Outcome E × W
  replay_end sniffer (ok u, w) = (finished, close sniffer w)
  replay_end sniffer (err e, w) = (exited e, w)

  unfoldable replay_provider :
      StressConfig fl.Float → Sniffer → Result E Provider × W → Outcome E × W
  replay_provider cfg sniffer (err e, w) =
      (failed "failed to initiate txns replay stress provider" e, close sniffer w)
  replay_provider cfg sniffer (ok provider, w) =
      replay_end sniffer (stress_replay (without_await cfg) provider w)

  unfoldable replay_sniffer : StressConfig fl.Float → Client → Result E Sniffer × W → Outcome E × W
  replay_sniffer cfg client (err e, w) = (failed "failed to initiate txns sniffer" e, w)
  replay_sniffer cfg client (ok sniffer, w) =
      replay_provider cfg sniffer (new_provider client sniffer (start sniffer w))

  unfoldable replay_client :
      String → ℤ → ℤ → StressConfig fl.Float → Option Client → W → Outcome E × W
  replay_client rpc start_height end_height cfg none w = (not_connected, w)
  replay_client rpc start_height end_height cfg (some client) w =
      replay_sniffer cfg client (new_sniffer rpc start_height end_height w)

  -- `PreRunE` turns the flags down, or `RunE` gets them.
  unfoldable replay_checked :
      String
      → ℤ
      → ℤ
      → StressConfig fl.Float
      → Option ReplayError
      → W
      → Result ReplayError (Outcome E × W)
  replay_checked rpc start_height end_height cfg (some e) w = err e
  replay_checked rpc start_height end_height cfg none w = ok (
      replay_client rpc start_height end_height cfg
        (connect cfg.chain_id cfg.node_address cfg.grpc_address) w)

  unfoldable tx_replay :
      String → ℤ → ℤ → StressConfig fl.Float → W → Result ReplayError (Outcome E × W)
  tx_replay rpc start_height end_height cfg w =
      replay_checked rpc start_height end_height cfg (check_replay rpc start_height end_height) w
