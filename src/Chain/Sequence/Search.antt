-- ===== src/Chain/Sequence/Search.antt =====
-- The search of chain/client.go for a literal and a run of digits.
use chain_stresser.Common.{ℕ, ◌≡◌, refl, ap, ◌∙◌, false, Option, none, some, [], ◌∷◌, ◌++◌, arith}
use chain_stresser.Common.Bytes.{Bytes}
use chain_stresser.Chain.Decimal.{
  is_digit, span_digits, IsDigits, decimal, decimal-IsDigits, decimal-ne-nil,
}
use chain_stresser.Chain.Sequence.{
  strip_prefix, after_prefix, some_digits, match_numbers, find_submatch,
}

pub strip_prefix-append : (p s : Bytes) → strip_prefix p (p ++ s) ≡ some s
unfolding strip_prefix
strip_prefix-append [] s = refl
strip_prefix-append (c ∷ p) s = ground (arith, strip_prefix-append p s)

-- A text that does not go on with a digit.
abbrev pub NoDigit : Bytes → Type 0
NoDigit [] = Unit
NoDigit (c ∷ s) = is_digit c ≡ false

pub span_digits-NoDigit : (s : Bytes) → NoDigit s → span_digits s ≡ ([], s)
unfolding span_digits
span_digits-NoDigit [] h = refl
span_digits-NoDigit (c ∷ s) h = rw h

pub span_digits-append : (ds s : Bytes) → IsDigits ds → NoDigit s → span_digits (ds ++ s) ≡ (ds, s)
unfolding span_digits
span_digits-append [] s hd hs = span_digits-NoDigit s hs
span_digits-append (d ∷ ds) s (hd, hds) hs = rw (span_digits-append ds s hds hs, hd)

-- The leftmost match is the one at the front, where there is one.
pub find_submatch_front :
    (m : Bytes → Option Bytes) (s : Bytes) {ds : Bytes}
    → m s ≡ some ds
    → find_submatch m s ≡ some ds
unfolding find_submatch
find_submatch_front m [] h = h
find_submatch_front m (c ∷ s) h = rw (h, find_submatch)

after_prefix_lem {ℓ} :
    {A : Type ℓ} (p s : Bytes) (f : Bytes → Option A) → after_prefix p (p ++ s) f ≡ f s
after_prefix_lem {A} p s f =
    ap (λ (o : Option Bytes). elim o as (λ _. Option A) [ none ↦ none | some rest ↦ f rest ])
      (strip_prefix-append p s)

some_digits-append {ℓ} :
    {A : Type ℓ} (n : ℕ) (s : Bytes) (f : Bytes → Bytes → Option A)
    → NoDigit s
    → some_digits (span_digits (decimal n ++ s)) f ≡ f (decimal n) s
some_digits-append n s f h =
    let (c, ds, e) = decimal-ne-nil n in
    rw (span_digits-append (decimal n) s (decimal-IsDigits n) h, e)

-- The two printed numbers are found between the literals, if no digit follows either of them.
pub match_numbers-decimal :
    (head middle rest : Bytes) (m n : ℕ)
    → NoDigit (middle ++ (decimal n ++ rest))
    → NoDigit rest
    → match_numbers head middle (head ++ (decimal m ++ (middle ++ (decimal n ++ rest))))
      ≡ some (decimal m, decimal n)
unfolding match_numbers
match_numbers-decimal head middle rest m n hm hr =
    after_prefix_lem head (decimal m ++ (middle ++ (decimal n ++ rest))) _
    ∙ (some_digits-append m (middle ++ (decimal n ++ rest)) _ hm
        ∙ (after_prefix_lem middle (decimal n ++ rest) _ ∙ some_digits-append n rest _ hr))
