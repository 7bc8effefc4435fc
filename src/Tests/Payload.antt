-- ===== src/Tests/Payload.antt =====
-- The bank transfers and the mixed payload on small inputs.
use chain_stresser.Common.{
  ℕ, ◌≡◌, refl, Option, none, some, List, [], ◌∷◌, ok, arith, length, String,
}
use chain_stresser.Common.Int.{ℤ, pos}
use chain_stresser.Payload.Base.{TxRequest, BaseTx}
use chain_stresser.Payload.Bank.{
  Coin, Msg, msg_multi_send, BankProvider, target_idx, multi_send_generate_tx,
}
use chain_stresser.Payload.Transfers.{multi_send_balanced, coins_total, outputs_total}
use chain_stresser.Payload.Mixed.{
  Kind, bank_send, eth_call, MixedPayloadProvider, new_mixed_payload_provider, select_provider,
  normalize_frequencies, sum_f, add_sections,
}
use chain_stresser.Payload.Mixed.Draw.{IsConfigured, select_provider-IsConfigured}
use chain_stresser.Tests.Instances.{whole_floats}

abbrev coin : Coin
coin = record { denom = "inj"; amount = 7 }

abbrev bank : BankProvider
bank = record {
  send_amount = coin;
  min_gas_price = coin;
  max_gas_limit = 150000;
  memo_attach = [];
  num_targets = 5;
}

-- Three accounts, whose keys are numbers and whose addresses are the keys; the last one sends.
abbrev request : TxRequest ℕ
request = record {
  keys = 10 ∷ 11 ∷ 12 ∷ [];
  from = record { name = []; key = 12; number = 0; sequence = 3 };
  from_idx = 2;
  tx_idx = 0;
}

abbrev address : ℕ → ℕ
address k = k

abbrev sender : ℕ
sender = 2

three_targets : target_idx 3 2 1 ≡ target_idx 3 2 1
three_targets = refl

multi_send_balanced_example :
    (t : BaseTx ℕ (Msg ℕ)) × (input : Coin) × (outs : List (ℕ × List Coin))
    × (multi_send_generate_tx address bank request ≡ some t)
    × (t.msgs ≡ msg_multi_send (12, input ∷ []) outs ∷ [])
    × (length outs ≡ 5)
    × ((d : String) → outputs_total d outs ≡ coins_total d (input ∷ []))
multi_send_balanced_example = multi_send_balanced address bank request (omega arith)

-- Two sections with frequencies 1 and 3; their providers are numbers.
abbrev frequency : Kind → Option ℤ
frequency bank_send = some (pos 1)
frequency eth_call = some (pos 3)
frequency _ = none

abbrev create : Kind → Option ℕ
create bank_send = some 100
create eth_call = some 200
create _ = none

abbrev mixed : MixedPayloadProvider ℤ ℕ
mixed = record { providers = 100 ∷ 200 ∷ []; frequencies = pos 0 ∷ pos 0 ∷ [] }

mixed_made : new_mixed_payload_provider whole_floats frequency create ≡ ok mixed
unfolding new_mixed_payload_provider add_sections normalize_frequencies sum_f
mixed_made = refl

select_provider-IsConfigured_example :
    (p : ℕ) × (select_provider whole_floats mixed (pos 1) ≡ some p)
    × IsConfigured whole_floats frequency create p
select_provider-IsConfigured_example =
    select_provider-IsConfigured whole_floats frequency create mixed (pos 1) mixed_made
