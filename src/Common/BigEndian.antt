-- ===== src/Common/BigEndian.antt =====
-- math/big: `Bytes` of a number, which writes it in base 256 from the highest byte on, without
-- leading zeros; and the number that some bytes spell.
use Prim.Native.Nat.{ℕ, zero, suc, ◌+◌, ◌*◌, ◌/◌, ◌%◌, ◌^◌, ◌≤◌, ◌<◌}
use mathlib.Core.Path.{◌≡◌, refl, ap}
use mathlib.Core.Logic.{inl, inr}
use mathlib.Core.Bool.{true, false}
use mathlib.Core.List.{[], ◌∷◌, ◌++◌}
use native.Mathlib.Omega.{arith}
use chain_stresser.Common.Tests.{◌==◌, ==_iff, Bool-cases}
use chain_stresser.Common.Lists.{length}
use chain_stresser.Common.Bytes.{Bytes}

-- With the bytes written so far behind it. A round divides by 256, so `n` rounds are enough for `n`.
unfoldable pub bytes_before : ℕ → ℕ → Bytes → Bytes
bytes_before zero n acc = acc
bytes_before (suc fuel) n acc = elim (n == 0) [
  | true ↦ acc
  | false ↦ bytes_before fuel (n / 256) (n % 256 ∷ acc)
]

unfoldable pub big_bytes : ℕ → Bytes
unfolding bytes_before
big_bytes n = bytes_before n n []

-- The number that the bytes spell behind a given one.
abbrev pub value_after : ℕ → Bytes → ℕ
value_after v [] = v
value_after v (b ∷ bs) = value_after (v * 256 + b) bs

abbrev pub value : Bytes → ℕ
value bs = value_after 0 bs

value-bytes_before :
    (fuel n : ℕ) (acc : Bytes) → n ≤ fuel → value (bytes_before fuel n acc) ≡ value_after n acc
unfolding bytes_before
value-bytes_before zero n acc h = ground arith
value-bytes_before (suc fuel) n acc h =
    ground (arith, value-bytes_before fuel (n / 256) (n % 256 ∷ acc))

pub value-big_bytes : (n : ℕ) → value (big_bytes n) ≡ n
unfolding big_bytes
value-big_bytes n = value-bytes_before n n [] (omega arith)

length-bytes_before_le :
    (k fuel n : ℕ) (acc : Bytes) → n < 256 ^ k → length (bytes_before fuel n acc) ≤ k + length acc
unfolding bytes_before
length-bytes_before_le k zero n acc h = omega arith
length-bytes_before_le zero (suc fuel) n acc h = ground arith
length-bytes_before_le (suc k) (suc fuel) n acc h =
    ground (arith, length-bytes_before_le k fuel (n / 256) (n % 256 ∷ acc))

pow-pos : (k : ℕ) → 0 < 256 ^ k
pow-pos zero = omega arith
pow-pos (suc k) = omega (arith, pow-pos k)

length-bytes_before_ge : (fuel n : ℕ) (acc : Bytes) → length acc ≤ length (bytes_before fuel n acc)
unfolding bytes_before
length-bytes_before_ge zero n acc = omega arith
length-bytes_before_ge (suc fuel) n acc =
    ground (arith, length-bytes_before_ge fuel (n / 256) (n % 256 ∷ acc))

length-bytes_before_gt :
    (k fuel n : ℕ) (acc : Bytes)
    → n ≤ fuel
    → 256 ^ k ≤ n
    → k + length acc < length (bytes_before fuel n acc)
unfolding bytes_before
length-bytes_before_gt k zero n acc h g = absurd (omega (arith, pow-pos k))
length-bytes_before_gt zero (suc fuel) n acc h g =
    ground (arith, length-bytes_before_ge fuel (n / 256) (n % 256 ∷ acc))
length-bytes_before_gt (suc k) (suc fuel) n acc h g = elim (Bool-cases (n == 0)) [
  | inl nothing ↦ absurd (omega (arith, pow-pos (suc k), (==_iff n 0).0 nothing))
  | inr more ↦
      rw (length, more)
        (omega (
          arith,
          length-bytes_before_gt k fuel (n / 256) (n % 256 ∷ acc) (omega arith) (omega arith),
        ))
]

pub length-big_bytes_le : (k n : ℕ) → n < 256 ^ k → length (big_bytes n) ≤ k
unfolding big_bytes
length-big_bytes_le k n h = omega (arith, length-bytes_before_le k n n [] h)

pub length-big_bytes_gt : (k n : ℕ) → 256 ^ k ≤ n → k < length (big_bytes n)
unfolding big_bytes
length-big_bytes_gt k n h = omega (arith, length-bytes_before_gt k n n [] (omega arith) h)

abbrev pub zeros : ℕ → Bytes
zeros zero = []
zeros (suc n) = 0 ∷ zeros n

pub value-zeros : (n : ℕ) (bs : Bytes) → value (zeros n ++ bs) ≡ value bs
value-zeros zero bs = refl
value-zeros (suc n) bs = value-zeros n bs

pub length-zeros : (n : ℕ) → length (zeros n) ≡ n
length-zeros zero = refl
length-zeros (suc n) = ap suc (length-zeros n)
