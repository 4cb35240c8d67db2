-- ===== src/Prelude/Results.antt =====
-- `Result<T, E>` with `?` as bind.
use mathlib.Core.Path.{◌≡◌, refl}
use native.Mathlib.Omega.{arith}
use mathlib.Core.Bool.{Bool, true, false}
use mathlib.Core.Option.{Option, none, some}

pub data Result {ℓ κ} (E : Type ℓ) (A : Type κ) : Type (ℓ ⊔ κ) where
  err : E → Result E A
  ok : A → Result E A

infixl 5 ◌>>=◌ ◌>>◌
abbrev pub ◌>>=◌ {ε ℓ κ} :
    {E : Type ε} {A : Type ℓ} {B : Type κ} → Result E A → (A → Result E B) → Result E B
err e >>= next = err e
ok a >>= next = next a

abbrev pub ◌>>◌ {ε ℓ} : {E : Type ε} {B : Type ℓ} → Result E (Unit {0}) → Result E B → Result E B
first >> second = first >>= λ _. second

-- An early `return Err(e)` unless the test holds.
abbrev pub guard {ε} : {E : Type ε} → Bool → E → Result E (Unit {0})
guard false problem = err problem
guard true problem = ok tt

-- `Option::ok_or`
abbrev pub ok_or {ε ℓ} : {E : Type ε} {A : Type ℓ} → Option A → E → Result E A
ok_or none e = err e
ok_or (some a) e = ok a

-- A chain succeeds only where its first part does.
pub bind_ok :
    {E A B : Type 0} (r : Result E A) (f : A → Result E B) (c : B)
    → (r >>= f) ≡ ok c
    → (a : A) × (r ≡ ok a) × (f a ≡ ok c)
bind_ok (err e) f c h = absurd (ground arith)
bind_ok (ok a) f c h = (a, refl, h)

pub ok_injective : {E A : Type 0} {a b : A} → ◌≡◌ {A = Result E A} (ok a) (ok b) → a ≡ b
ok_injective h = ground arith
