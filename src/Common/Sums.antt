-- ===== src/Common/Sums.antt =====
-- Sums of a function over the numbers below a bound, and a function changed at one argument.
use Prim.Native.Nat.{ℕ, zero, suc, ◌+◌, ◌*◌, ◌≤◌, ◌<◌}
use mathlib.Core.Path.{◌≡◌, refl}
use mathlib.Core.Logic.{inl, inr}
use native.Mathlib.Omega.{arith}
use chain_stresser.Common.Tests.{◌==◌, if◌then◌else◌, Bool-cases, ==_iff, ltb, ltb→lt, ltb-false}

abbrev pub update {ℓ} : {A : Type ℓ} → (ℕ → A) → ℕ → A → ℕ → A
update f i v k = if k == i then v else f k

abbrev pub sum_below : ℕ → (ℕ → ℕ) → ℕ
sum_below zero f = 0
sum_below (suc n) f = f n + sum_below n f

pub sum_below-zero : (n : ℕ) → sum_below n (λ k. 0) ≡ 0
sum_below-zero zero = refl
sum_below-zero (suc n) = omega (arith, sum_below-zero n)

pub sum_below-update_out :
    (n : ℕ) (f : ℕ → ℕ) (i v : ℕ) → n ≤ i → sum_below n (update f i v) ≡ sum_below n f
sum_below-update_out zero f i v h = refl
sum_below-update_out (suc n) f i v h = ground (arith, sum_below-update_out n f i v)

-- One more at one argument is one more in the sum.
pub sum_below-update-suc :
    (n : ℕ) (f : ℕ → ℕ) (i : ℕ) → i < n → sum_below n (update f i (suc (f i))) ≡ suc (sum_below n f)
sum_below-update-suc zero f i h = elim h [ ]
sum_below-update-suc (suc n) f i h =
    ground (arith, sum_below-update-suc n f i, sum_below-update_out n f i (suc (f i)))

pub sum_below-le : (n : ℕ) (f : ℕ → ℕ) (m : ℕ) → ((k : ℕ) → f k ≤ m) → sum_below n f ≤ n * m
sum_below-le zero f m h = omega arith
sum_below-le (suc n) f m h = omega (arith, h n, sum_below-le n f m h)

-- A sum that is as large as it can be has all its terms as large as they can be.
pub sum_below_full :
    (n : ℕ) (f : ℕ → ℕ) (m : ℕ)
    → ((k : ℕ) → f k ≤ m)
    → sum_below n f ≡ n * m
    → (k : ℕ) → k < n
    → f k ≡ m
sum_below_full zero f m h e k lt = elim lt [ ]
sum_below_full (suc n) f m h e k lt = elim (Bool-cases (k == n)) [
  | inl same ↦ rw ((==_iff k n).0 same) (omega (arith, h n, sum_below-le n f m h))
  | inr other ↦ sum_below_full n f m h (omega (arith, h n, sum_below-le n f m h)) k (ground arith)
]

-- A sum that is smaller than it can be has a term that is smaller than it can be.
pub sum_below_short :
    (n : ℕ) (f : ℕ → ℕ) (m : ℕ) → sum_below n f < n * m → (k : ℕ) × (k < n) × (f k < m)
sum_below_short zero f m h = absurd (omega arith)
sum_below_short (suc n) f m h = elim (Bool-cases (ltb (f n) m)) [
  | inl small ↦ (n, omega arith, ltb→lt (f n) m small)
  | inr large ↦
      let (k, below, small) = sum_below_short n f m (omega (arith, ltb-false (f n) m large)) in
      (k, omega arith, small)
]
