-- ===== src/Aa/Packing.antt =====
-- eth/aa/userop.go: what a packed operation holds, and when packing it panics.
use chain_stresser.Common.{
  true, ◌+◌, ◌-◌, ◌^◌, ◌≤◌, ◌<◌, ◌≡◌, refl, ◌∙◌, ◌⊎◌, inl, inr, arith, false, none, some, [], ◌++◌,
  ltb, ltb→lt, ltb-false, ◌==◌, Bool-cases, length, length-append, take, drop, take-append,
  drop-append, take-drop, length-take,
}
use chain_stresser.Common.Bytes.{eq_bytes}
use chain_stresser.Common.BigEndian.{
  big_bytes, value, zeros, value-big_bytes, value-zeros, length-zeros, length-big_bytes_le,
  length-big_bytes_gt,
}
use chain_stresser.Common.Int.{ℤ, abs}
use chain_stresser.Aa.Address.{address_of_bytes}
use chain_stresser.Aa.UserOp.{
  Geth, zero_address, UserOperation, PackedUserOperation, get_factory, get_factory_data, pad,
  pack_account_gas_limits, pack_gas_fees, pack_paymaster_data, account_gas_limits, packed, pack,
}

-- The four numbers that share words are below 2^128.
abbrev pub Fits : UserOperation → Type 0
Fits op =
    (abs op.verification_gas_limit < 2 ^ 128)
    × (abs op.call_gas_limit < 2 ^ 128)
    × (abs op.max_priority_fee_per_gas < 2 ^ 128)
    × (abs op.max_fee_per_gas < 2 ^ 128)

module _ (geth : Geth) where
  length-pad :
      (z : ℤ) → length (pad geth z) ≡ 16 - length (big_bytes (abs z)) + length (big_bytes (abs z))
  length-pad z = rw (geth.left_pad_bytes-eq (big_bytes (abs z)) 16) (
      omega (
        arith,
        length-append (zeros (16 - length (big_bytes (abs z)))) (big_bytes (abs z)),
        length-zeros (16 - length (big_bytes (abs z))),
      ))

  length-pad_fits : (z : ℤ) → abs z < 2 ^ 128 → length (pad geth z) ≡ 16
  length-pad_fits z h = omega (arith, length-pad z, length-big_bytes_le 16 (abs z) h)

  length-pad_wide : (z : ℤ) → 2 ^ 128 ≤ abs z → 16 < length (pad geth z)
  length-pad_wide z h = omega (arith, length-pad z, length-big_bytes_gt 16 (abs z) h)

  value-pad : (z : ℤ) → value (pad geth z) ≡ abs z
  value-pad z =
      rw (geth.left_pad_bytes-eq (big_bytes (abs z)) 16) (
        value-zeros (16 - length (big_bytes (abs z))) (big_bytes (abs z)) ∙ value-big_bytes (abs z))

  -- Two numbers below 2^128 in one word.
  halves :
      (a b : ℤ)
      → abs a < 2 ^ 128
      → abs b < 2 ^ 128
      → (length (pad geth a ++ pad geth b) ≡ 32)
        × (value (take 16 (geth.bytes_to_hash (pad geth a ++ pad geth b))) ≡ abs a)
        × (value (drop 16 (geth.bytes_to_hash (pad geth a ++ pad geth b))) ≡ abs b)
  halves a b ha hb =
      let la = length-pad_fits a ha in
      let whole : length (pad geth a ++ pad geth b) ≡ 32 =
        omega (arith, length-append (pad geth a) (pad geth b), la, length-pad_fits b hb) in
      (
        whole,
        rw
            (
              geth.bytes_to_hash-eq (pad geth a ++ pad geth b) whole,
              take-append (pad geth a) (pad geth b) 16 la,
            )
            (value-pad a),
        rw
            (
              geth.bytes_to_hash-eq (pad geth a ++ pad geth b) whole,
              drop-append (pad geth a) (pad geth b) 16 la,
            )
            (value-pad b),
      )

  wide_half :
      (a b : ℤ)
      → (2 ^ 128 ≤ abs a) ⊎ (2 ^ 128 ≤ abs b)
      → (length (pad geth a ++ pad geth b) == 32) ≡ false
  wide_half a b (inl wide) =
      ground (arith, length-append (pad geth a) (pad geth b), length-pad_wide a wide, length-pad b)
  wide_half a b (inr wide) =
      ground (arith, length-append (pad geth a) (pad geth b), length-pad_wide b wide, length-pad a)

  -- `Pack` gets past its two tests.
  pub pack-packed : (op : UserOperation) → Fits op → pack geth op ≡ some (packed geth op)
  unfolding pack pack_account_gas_limits pack_gas_fees
  pack-packed op (v, c, m, f) =
      rw
        (
          (halves op.verification_gas_limit op.call_gas_limit v c).0,
          (halves op.max_priority_fee_per_gas op.max_fee_per_gas m f).0,
        )
        refl

  -- An operation whose gas limits and fees are below 2^128 is packed without a panic, and the limits
  -- and fees are read back from the halves of the two words. The other fields are as they were, the
  -- signature included; the paymaster's bytes are none for the zero address, and otherwise its
  -- address, its two gas limits padded to 16 bytes, and its data, one after the other.
  pub pack-values :
      (op : UserOperation)
      → Fits op
      → (p : PackedUserOperation) × (pack geth op ≡ some p)
        × (value (take 16 p.account_gas_limits) ≡ abs op.verification_gas_limit)
        × (value (drop 16 p.account_gas_limits) ≡ abs op.call_gas_limit)
        × (value (take 16 p.gas_fees) ≡ abs op.max_priority_fee_per_gas)
        × (value (drop 16 p.gas_fees) ≡ abs op.max_fee_per_gas)
        × (p.sender ≡ op.sender)
        × (p.nonce ≡ op.nonce)
        × (p.init_code ≡ op.init_code)
        × (p.call_data ≡ op.call_data)
        × (p.pre_verification_gas ≡ op.pre_verification_gas)
        × (p.signature ≡ op.signature)
        × (eq_bytes op.paymaster zero_address ≡ true → p.paymaster_and_data ≡ [])
        × (eq_bytes op.paymaster zero_address ≡ false
            → p.paymaster_and_data
              ≡ op.paymaster
                ++ (geth.left_pad_bytes (big_bytes (abs op.paymaster_verification_gas_limit)) 16
                    ++ (geth.left_pad_bytes (big_bytes (abs op.paymaster_post_op_gas_limit)) 16
                        ++ op.paymaster_data)))
  unfolding pack_account_gas_limits pack_gas_fees pack_paymaster_data
  pack-values op (v, c, m, f) =
      let (_, verification, call) = halves op.verification_gas_limit op.call_gas_limit v c in
      let (_, priority, max) = halves op.max_priority_fee_per_gas op.max_fee_per_gas m f in
      (
        packed geth op,
        pack-packed op (v, c, m, f),
        verification,
        call,
        priority,
        max,
        refl,
        refl,
        refl,
        refl,
        refl,
        refl,
        λ unset. rw unset refl,
        λ set. rw set refl,
      )

  -- An operation with one of these numbers at 2^128 or above makes the packing panic.
  pub pack_panics :
      (op : UserOperation)
      → ((2 ^ 128 ≤ abs op.verification_gas_limit) ⊎ (2 ^ 128 ≤ abs op.call_gas_limit))
        ⊎ ((2 ^ 128 ≤ abs op.max_priority_fee_per_gas) ⊎ (2 ^ 128 ≤ abs op.max_fee_per_gas))
      → pack geth op ≡ none
  unfolding pack pack_account_gas_limits pack_gas_fees
  pack_panics op (inl limits) =
      rw (wide_half op.verification_gas_limit op.call_gas_limit limits) refl
  pack_panics op (inr fees) = elim (Bool-cases (length (account_gas_limits geth op) == 32)) [
    | inl good ↦ rw (good, wide_half op.max_priority_fee_per_gas op.max_fee_per_gas fees) refl
    | inr bad ↦ rw bad refl
  ]

  -- The factory and its data are the two parts of an init code of 20 bytes or more; a shorter one
  -- has the zero address and no data.
  pub factory-append :
      (op : UserOperation)
      → (20 ≤ length op.init_code → get_factory geth op ++ get_factory_data geth op ≡ op.init_code)
        × (length op.init_code < 20
            → (get_factory geth op ≡ zero_address) × (get_factory_data geth op ≡ []))
  unfolding get_factory get_factory_data
  factory-append op = elim (Bool-cases (ltb (length op.init_code) 20)) [
    | inl short ↦
        (λ long. absurd (omega (arith, ltb→lt _ _ short, long)), λ _. rw short (refl, refl))
    | inr long ↦ (
      λ _.
          rw
            (
              long,
              address_of_bytes geth (take 20 op.init_code)
                  (length-take 20 op.init_code (ltb-false _ _ long)),
            )
            (take-drop 20 op.init_code),
      λ short. absurd (omega (arith, ltb-false _ _ long, short)),
    )
  ]

  -- With a paymaster other than the zero address, whose gas limits are below 2^128, what an operation
  -- is packed into names the paymaster, its two gas limits and its data, one after the other.
  pub paymaster-values :
      (op : UserOperation)
      → Fits op
      → eq_bytes op.paymaster zero_address ≡ false
      → length op.paymaster ≡ 20
      → abs op.paymaster_verification_gas_limit < 2 ^ 128
      → abs op.paymaster_post_op_gas_limit < 2 ^ 128
      → (p : PackedUserOperation) × (pack geth op ≡ some p)
        × (take 20 p.paymaster_and_data ≡ op.paymaster)
        × (value (take 16 (drop 20 p.paymaster_and_data)) ≡ abs op.paymaster_verification_gas_limit)
        × (value (take 16 (drop 16 (drop 20 p.paymaster_and_data)))
            ≡ abs op.paymaster_post_op_gas_limit)
        × (drop 16 (drop 16 (drop 20 p.paymaster_and_data)) ≡ op.paymaster_data)
  unfolding pack_paymaster_data
  paymaster-values op (v, c, m, f) other twenty hv hp =
      let lv = length-pad_fits op.paymaster_verification_gas_limit hv in
      let lp = length-pad_fits op.paymaster_post_op_gas_limit hp in
      (
        packed geth op,
        pack-packed op (v, c, m, f),
        rw (other, take-append op.paymaster _ 20 twenty) refl,
        rw
            (
              other,
              drop-append op.paymaster _ 20 twenty,
              take-append (pad geth op.paymaster_verification_gas_limit) _ 16 lv,
            )
            (value-pad op.paymaster_verification_gas_limit),
        rw
            (
              other,
              drop-append op.paymaster _ 20 twenty,
              drop-append (pad geth op.paymaster_verification_gas_limit) _ 16 lv,
              take-append (pad geth op.paymaster_post_op_gas_limit) _ 16 lp,
            )
            (value-pad op.paymaster_post_op_gas_limit),
        rw
            (
              other,
              drop-append op.paymaster _ 20 twenty,
              drop-append (pad geth op.paymaster_verification_gas_limit) _ 16 lv,
              drop-append (pad geth op.paymaster_post_op_gas_limit) _ 16 lp,
            )
            refl,
      )
