-- ===== src/Common/Float.antt =====
-- Go's float64 is taken as a parameter: its operations, and the IEEE 754 facts that are relied on.
-- A NaN is allowed: it is below nothing and equal to nothing.
use Prim.Native.Nat.{ℕ, ◌<◌}
use mathlib.Core.Path.{◌≡◌}
use mathlib.Core.Bool.{Bool, true, false}
use chain_stresser.Common.Int.{ℤ}

pub record Floats : Type 1 where
  pub Float : Type 0
  pub zero_f : Float
  pub of_u64 : ℕ → Float
  pub ltb_f : Float → Float → Bool
  pub leb_f : Float → Float → Bool
  pub eqb_f : Float → Float → Bool
  pub add_f : Float → Float → Float
  pub sub_f : Float → Float → Float
  pub mul_f : Float → Float → Float
  pub div_f : Float → Float → Float
  -- int(math.Ceil(x)) and uint64(x)
  pub ceil_int : Float → ℤ
  pub trunc_u64 : Float → ℕ
  pub ltb_f-asymm : (x y : Float) → ltb_f x y ≡ true → ltb_f y x ≡ false
  pub eqb_f-of_lt : (x y : Float) → ltb_f x y ≡ true → eqb_f y x ≡ false
  pub of_u64_pos : (n : ℕ) → 0 < n → ltb_f zero_f (of_u64 n) ≡ true
  pub leb_f-of_gt : (x y : Float) → ltb_f x y ≡ true → leb_f y x ≡ false
