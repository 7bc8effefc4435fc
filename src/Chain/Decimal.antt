-- ===== src/Chain/Decimal.antt =====
-- Unsigned decimals: `strconv.ParseUint(s, 10, 64)` on a run of digits, and `%d`.
use chain_stresser.Common.{
  ℕ, zero, suc, ◌+◌, ◌-◌, ◌*◌, ◌/◌, ◌%◌, ◌<◌, ◌^◌, ◌≡◌, refl, Bool, true, false, ◌&&◌, Option, none,
  some, [], ◌∷◌, ◌++◌, arith, ltb, leb, ltb-false, lt→ltb, if◌then◌else◌, Bool-cases, inl, inr, All,
  ltb→lt,
}
use chain_stresser.Common.Bytes.{Bytes}

unfoldable pub is_digit : ℕ → Bool
is_digit c = leb b'0' c && leb c b'9'

-- The value of a run of digits, after `acc`.
unfoldable pub digits_value : ℕ → Bytes → ℕ
digits_value acc [] = acc
digits_value acc (c ∷ s) = digits_value (acc * 10 + (c - b'0')) s

-- `strconv.ParseUint` on a run of digits: the value, unless it does not fit 64 bits.
unfoldable pub parse_uint : Bytes → Option ℕ
unfolding digits_value
parse_uint s = if ltb (digits_value 0 s) (2 ^ 64) then some (digits_value 0 s) else none

-- The longest run of digits in front, and the rest.
unfoldable pub span_digits : Bytes → Bytes × Bytes
unfolding is_digit
span_digits [] = ([], [])
span_digits (c ∷ s) =
    let (ds, rest) = span_digits s in if is_digit c then (c ∷ ds, rest) else ([], c ∷ s)

-- `%d`, on fuel: n + 1 is enough.
unfoldable pub decimal_fuel : ℕ → ℕ → Bytes
decimal_fuel zero n = []
decimal_fuel (suc f) n =
    let more = decimal_fuel f (n / 10) ++ (b'0' + n % 10) ∷ [] in
    if ltb n 10 then (b'0' + n) ∷ [] else more

unfoldable pub decimal : ℕ → Bytes
unfolding decimal_fuel
decimal n = decimal_fuel (suc n) n

digits_value-append :
    (acc : ℕ) (s : Bytes) (c : ℕ)
    → digits_value acc (s ++ c ∷ []) ≡ digits_value acc s * 10 + (c - b'0')
unfolding digits_value
digits_value-append acc [] c = refl
digits_value-append acc (d ∷ s) c = digits_value-append (acc * 10 + (d - b'0')) s c

decimal_fuel-value : (f n : ℕ) → n < f → digits_value 0 (decimal_fuel f n) ≡ n
unfolding decimal_fuel
decimal_fuel-value zero n h = elim h [ ]
decimal_fuel-value (suc f) n h = elim (Bool-cases (ltb n 10)) [
  | inl small ↦ rw small (unfold digits_value in omega arith)
  | inr big ↦
      rw (big, digits_value-append)
        (let ih = decimal_fuel-value f (n / 10) (omega (arith, ltb-false _ _ big)) in omega arith)
]

-- Printing a number and reading it back gives the number, if it fits 64 bits.
pub parse_uint-decimal : (n : ℕ) → n < 2 ^ 64 → parse_uint (decimal n) ≡ some n
unfolding parse_uint decimal
parse_uint-decimal n h = rw (decimal_fuel-value (suc n) n (omega arith), lt→ltb n (2 ^ 64) h)

abbrev pub IsDigits : Bytes → Type 0
IsDigits s = All (λ c. is_digit c ≡ true) s

is_digit-of : (d : ℕ) → d < 10 → is_digit (b'0' + d) ≡ true
unfolding is_digit
is_digit-of d h = ground arith

IsDigits-append : (s : Bytes) (c : ℕ) → IsDigits s → is_digit c ≡ true → IsDigits (s ++ c ∷ [])
IsDigits-append [] c hs hc = (hc, tt)
IsDigits-append (d ∷ s) c (hd, hs) hc = (hd, IsDigits-append s c hs hc)

decimal_fuel-IsDigits : (f n : ℕ) → IsDigits (decimal_fuel f n)
unfolding decimal_fuel
decimal_fuel-IsDigits zero n = tt
decimal_fuel-IsDigits (suc f) n = elim (Bool-cases (ltb n 10)) [
  | inl small ↦ rw small (is_digit-of n (ltb→lt _ _ small), tt)
  | inr big ↦
      rw big (IsDigits-append _ _ (decimal_fuel-IsDigits f (n / 10)) (is_digit-of _ (omega arith)))
]

pub decimal-IsDigits : (n : ℕ) → IsDigits (decimal n)
unfolding decimal
decimal-IsDigits n = decimal_fuel-IsDigits (suc n) n

pub decimal-ne-nil : (n : ℕ) → (c : ℕ) × (ds : Bytes) × (decimal n ≡ c ∷ ds)
unfolding decimal decimal_fuel
decimal-ne-nil n = go (decimal_fuel n (n / 10)) (ltb n 10)
  where
    go :
        (more : Bytes) (b : Bool)
        → (c : ℕ) × (ds : Bytes) × ((if b then (b'0' + n) ∷ [] else more ++ (b'0' + n % 10) ∷ [])
            ≡ c ∷ ds)
    go more true = (b'0' + n, [], refl)
    go [] false = (b'0' + n % 10, [], refl)
    go (d ∷ ds) false = (d, ds ++ (b'0' + n % 10) ∷ [], refl)
