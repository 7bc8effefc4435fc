-- ===== src/Common/Outcome.antt =====
-- A Go function that returns a value and an error, the error's type a parameter.
use mathlib.Core.Option.{Option, none, some}

pub data Result {ℓ κ} (E : Type ℓ) (A : Type κ) : Type (ℓ ⊔ κ) where
  ok : A → Result E A
  err : E → Result E A

infixl 5 ◌>>=◌ ◌>>◌
abbrev pub ◌>>=◌ {ℓ κ λ'} :
    {E : Type ℓ} {A : Type κ} {B : Type λ'} → Result E A → (A → Result E B) → Result E B
ok a >>= f = f a
err e >>= f = err e

abbrev pub ◌>>◌ {ℓ κ} : {E : Type ℓ} {B : Type κ} → Result E (Unit {0}) → Result E B → Result E B
m >> k = m >>= λ _. k

-- `err` when the option holds an error, as `if err != nil { return err }` does.
abbrev pub reject {ℓ} : {E : Type ℓ} → Option E → Result E (Unit {0})
reject none = ok tt
reject (some e) = err e
