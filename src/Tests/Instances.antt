-- ===== src/Tests/Instances.antt =====
-- Concrete instances of the model's parameters: floats that are whole numbers, a bucket that only
-- knows its burst, the SDK's codes, and a node that counts sequences.
use chain_stresser.Common.{
  ℕ, ◌+◌, ◌-◌, ◌*◌, ◌/◌, ◌<◌, ◌≡◌, refl, Bool, true, false, not, Option, none, some, arith, ltb,
  ◌==◌, if◌then◌else◌,
}
use chain_stresser.Common.Int.{ℤ, pos, negsuc, pos_part, neg_part, ltb_ℤ, ◌≤ℤ◌}
use chain_stresser.Common.Float.{Floats}
use chain_stresser.RateLimit.Limiter.{WaitError, canceled, refused, TokenBucket, BucketLaws}
use chain_stresser.Chain.Sequence.{SdkErrors}

abbrev from_difference : ℕ → ℕ → ℤ
from_difference a b = if ltb a b then negsuc (b - a - 1) else pos (a - b)

abbrev eqb_ℤ : ℤ → ℤ → Bool
eqb_ℤ a b = (pos_part a + neg_part b) == (pos_part b + neg_part a)

pub ltb_ℤ-asymm : (a b : ℤ) → ltb_ℤ a b ≡ true → ltb_ℤ b a ≡ false
ltb_ℤ-asymm a b h = ground arith

pub eqb_ℤ-of_lt : (a b : ℤ) → ltb_ℤ a b ≡ true → eqb_ℤ b a ≡ false
eqb_ℤ-of_lt a b h = ground arith

pub of_u64-pos : (n : ℕ) → 0 < n → ltb_ℤ (pos 0) (pos n) ≡ true
of_u64-pos n h = ground arith

pub leb_ℤ-of_gt : (a b : ℤ) → ltb_ℤ a b ≡ true → not (ltb_ℤ a b) ≡ false
leb_ℤ-of_gt a b h = rw h

abbrev pub whole_floats : Floats
whole_floats = record {
  Float = ℤ;
  zero_f = pos 0;
  of_u64 = pos;
  ltb_f = ltb_ℤ;
  leb_f = λ a b. not (ltb_ℤ b a);
  eqb_f = eqb_ℤ;
  add_f = λ a b. from_difference (pos_part a + pos_part b) (neg_part a + neg_part b);
  sub_f = λ a b. from_difference (pos_part a + neg_part b) (neg_part a + pos_part b);
  mul_f = λ a b.
      from_difference (pos_part a * pos_part b + neg_part a * neg_part b)
        (pos_part a * neg_part b + neg_part a * pos_part b);
  div_f = λ a b. pos (pos_part a / pos_part b);
  ceil_int = λ a. a;
  trunc_u64 = pos_part;
  ltb_f-asymm = ltb_ℤ-asymm;
  eqb_f-of_lt = eqb_ℤ-of_lt;
  of_u64_pos = of_u64-pos;
  leb_f-of_gt = leb_ℤ-of_gt;
}

-- A context is `true` unless it is cancelled; a limiter is its burst.
abbrev burst_wait : Bool → ℤ → ℤ → Option WaitError × ℤ
burst_wait live l n =
    (if not live then some canceled else if ltb_ℤ l n then some refused else none, l)

abbrev pub burst_bucket : TokenBucket ℤ
burst_bucket = record {
  Limiter = ℤ;
  Ctx = Bool;
  Time = ℕ;
  new_limiter = λ r b. b;
  wait_n = burst_wait;
  allow_n = λ t l n. (not (ltb_ℤ l n), l);
  tokens_at = λ t l. l;
  set_limit = λ l r. l;
}

pub burst_wait_live :
    (live : Bool) (l n : ℤ) → live ≡ true → n ≤ℤ l → (burst_wait live l n).0 ≡ none
burst_wait_live live l n h le = ground arith

abbrev pub burst_laws : BucketLaws burst_bucket
burst_laws = record {
  burst = λ l. l;
  IsLive = λ c. c ≡ true;
  burst-new_limiter = λ r b. refl;
  burst-wait_n = λ c l n. refl;
  wait_n_live = burst_wait_live;
}

abbrev pub sdk_errors : SdkErrors
sdk_errors = record {
  wrong_sequence = record { codespace = "sdk"; abci_code = 32 };
  invalid_sequence = record { codespace = "sdk"; abci_code = 3 };
  tx_in_mempool_cache = record { codespace = "sdk"; abci_code = 19 };
  mempool_is_full = record { codespace = "sdk"; abci_code = 20 };
}
