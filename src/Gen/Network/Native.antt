-- ===== src/Gen/Network/Native.antt =====
-- generator.go below the checks of the command generate: validators on one machine.
use chain_stresser.Common.{
  ℕ, ◌≤◌, ◌<◌, ◌≡◌, Result, ◌>>◌, arith, true, ok, err, ltb-false, Bool-cases, inl, inr,
}
use chain_stresser.Common.Bytes.{Bytes}
use chain_stresser.Common.Int.{pos, ltb_ℤ}
use chain_stresser.Gen.Ports.{Has, port_list, shift_ports-Differ}
use chain_stresser.Gen.Network.{
  Ip, GeneratorEnvironment, GenerateError, check_generate, must_not, too_many_validators,
  sentries_with_native, Network, validator_node,
}

abbrev passed : Result GenerateError (Unit {0})
passed = ok tt

err-ne-passed : (e : GenerateError) → err e ≡ passed → ⊥
err-ne-passed e p = cc

both_pass :
    (v s : ℕ)
    → (must_not (ltb_ℤ (pos 4) (pos v)) too_many_validators
        >> must_not (ltb_ℤ (pos 0) (pos s)) sentries_with_native)
      ≡ ok tt
    → (v ≤ 4) × (s ≡ 0)
both_pass v s h = elim (Bool-cases (ltb_ℤ (pos 4) (pos v))) [
  | inl many ↦ absurd (err-ne-passed too_many_validators (rw many at h))
  | inr few ↦ elim (Bool-cases (ltb_ℤ (pos 0) (pos s))) [
    | inl some_sentries ↦ absurd (err-ne-passed sentries_with_native (rw (few, some_sentries) at h))
    | inr no_sentries ↦ (omega (arith, ltb-false _ _ few), omega (arith, ltb-false _ _ no_sentries))
  ]
]

checked_counts :
    (env : GeneratorEnvironment) (validators sentries : ℕ)
    → env.local_native ≡ true
    → env.num_of_validators ≡ pos validators
    → env.num_of_sentry_nodes ≡ pos sentries
    → check_generate env ≡ ok tt
    → (validators ≤ 4) × (sentries ≡ 0)
unfolding check_generate
checked_counts env validators sentries native ev es passes =
    both_pass validators sentries (rw (check_generate, native, ev, es) at passes)

-- When the command's checks let local validators pass, there are at most four of them and no
-- sentries, so that no two of the validators share a port.
pub check_generate-ports :
    (env : GeneratorEnvironment) (net : Network) (validator_id sentry_id : ℕ → Bytes)
    (peer : Bytes → Ip → ℕ → Bytes)
    → env.local_native ≡ true
    → net.local_native ≡ true
    → env.num_of_validators ≡ pos net.validators
    → env.num_of_sentry_nodes ≡ pos net.sentries
    → check_generate env ≡ ok tt
    → (net.validators ≤ 4)
      × (net.sentries ≡ 0)
      × ((i j port : ℕ)
          → i < net.validators
          → j < net.validators
          → Has port (port_list (validator_node net validator_id sentry_id peer i).ports)
          → Has port (port_list (validator_node net validator_id sentry_id peer j).ports)
          → i ≡ j)
unfolding validator_node
check_generate-ports env net validator_id sentry_id peer native native' ev es passes =
    let (few, none_left) = checked_counts env net.validators net.sentries native ev es passes in
    (
      few,
      none_left,
      rw native'
          (λ i j port hi hj p q. (shift_ports-Differ i (omega arith)).2 j port (omega arith) p q),
    )
