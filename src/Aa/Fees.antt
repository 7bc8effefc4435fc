-- ===== src/Aa/Fees.antt =====
-- eth/aa/userop.go: the price of an operation and the most that it can cost.
use native.Mathlib.Nat.{mul-le-mul}
use chain_stresser.Common.{
  ℕ, ◌+◌, ◌*◌, ◌≤◌, ◌≡◌, refl, ◌⊎◌, inl, inr, arith, not, Option, ltb→lt, ltb-false, Bool-cases,
}
use chain_stresser.Common.Bytes.{eq_bytes}
use chain_stresser.Common.Int.{ℤ, pos, ◌≤ℤ◌, add_ℤ, ltb_ℤ}
use chain_stresser.Aa.UserOp.{
  zero_address, UserOperation, get_max_gas_available, get_max_prefund, get_dynamic_gas_price,
  or_zero,
}

-- The gas price is the smaller of the maximal fee and the base fee with the priority fee.
pub get_dynamic_gas_price-le :
    (op : UserOperation) (basefee : Option ℤ)
    → (get_dynamic_gas_price op basefee ≤ℤ op.max_fee_per_gas)
      × (get_dynamic_gas_price op basefee ≤ℤ add_ℤ (or_zero basefee) op.max_priority_fee_per_gas)
      × ((get_dynamic_gas_price op basefee ≡ op.max_fee_per_gas)
          ⊎ (get_dynamic_gas_price op basefee
              ≡ add_ℤ (or_zero basefee) op.max_priority_fee_per_gas))
unfolding get_dynamic_gas_price
get_dynamic_gas_price-le op basefee =
    elim (Bool-cases
      (ltb_ℤ op.max_fee_per_gas (add_ℤ (or_zero basefee) op.max_priority_fee_per_gas))) [
        | inl high ↦ rw high (omega arith, omega (arith, ltb→lt _ _ high), inl refl)
        | inr low ↦ rw low (omega (arith, ltb-false _ _ low), omega arith, inr refl)
      ]

≤ℤ-pos : (z w : ℤ) (price max : ℕ) → z ≡ pos price → w ≡ pos max → z ≤ℤ w → price ≤ max
≤ℤ-pos z w price max e f h = omega (arith, (rw (e, f) at h))

-- For an operation whose limits and maximal fee are not negative, any amount of gas within
-- `GetMaxGasAvailable`, at the price for any base fee, costs at most `GetMaxPrefund`.
pub cost-le-prefund :
    (op : UserOperation) (verification call pre max : ℕ) (basefee : Option ℤ) (price : ℕ)
    → op.verification_gas_limit ≡ pos verification
    → op.call_gas_limit ≡ pos call
    → op.pre_verification_gas ≡ pos pre
    → op.max_fee_per_gas ≡ pos max
    → get_dynamic_gas_price op basefee ≡ pos price
    → (available : ℕ) × (prefund : ℕ) × (get_max_gas_available op ≡ pos available)
      × (get_max_prefund op ≡ pos prefund)
      × (verification + (pre + call) ≤ available)
      × ((used : ℕ) → used ≤ available → used * price ≤ prefund)
unfolding get_max_prefund get_max_gas_available
cost-le-prefund op verification call pre max basefee price ev ec ep ef eg =
    let below : price ≤ max = ≤ℤ-pos _ _ price max eg ef (get_dynamic_gas_price-le op basefee).0 in
    elim (Bool-cases (not (eq_bytes op.paymaster zero_address))) [
      | inl paid ↦ (
        verification * 3 + (pre + call),
        (verification * 3 + (pre + call)) * max,
        rw (paid, ev, ec, ep) refl,
        rw (paid, ev, ec, ep, ef) refl,
        omega arith,
        λ used few. mul-le-mul few below,
      )
      | inr free ↦ (
        verification * 1 + (pre + call),
        (verification * 1 + (pre + call)) * max,
        rw (free, ev, ec, ep) refl,
        rw (free, ev, ec, ep, ef) refl,
        omega arith,
        λ used few. mul-le-mul few below,
      )
    ]
