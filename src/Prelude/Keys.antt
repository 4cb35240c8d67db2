-- ===== src/Prelude/Keys.antt =====
-- Boolean equality of keys, as an instance: numbers (ids, timestamps) and strings.
use Prim.Native.Nat.{ℕ}
use Prim.Native.String.{String}
use text.Mathlib.Text.{◌==◌ as str_eq}
use text.Mathlib.TextEquality.{eq_iff}
use mathlib.Core.Path.{◌≡◌, refl}
use mathlib.Core.Logic.{◌≢◌, ◌↔◌, inl, inr}
use mathlib.Core.Bool.{Bool, true, false, ◌&&◌}
use native.Mathlib.Omega.{arith}
use cyxcloud.Prelude.Tests.{◌==◌, ==_iff, Bool-cases}

-- `Eq` for the keys of a map, with what the trait asks of `==`.
pub record Key {κ} (K : Type κ) : Type κ where
  pub same : K → K → Bool
  pub same_iff : (j k : K) → (same j k ≡ true) ↔ (j ≡ k)

infix 50 ◌=?◌
abbrev pub ◌=?◌ {κ} : {K : Type κ} ⦃e : Key K⦄ → K → K → Bool
◌=?◌ ⦃e⦄ = e.same

instance abbrev pub string_key : Key String
string_key = record { same = str_eq; same_iff = eq_iff }

instance abbrev pub number_key : Key ℕ
number_key = record { same = ◌==◌; same_iff = ==_iff }

-- The machine's signed integers, which are compared only where they are keys.
pub data ℤ : Type 0 where
  pos : ℕ → ℤ
  negsuc : ℕ → ℤ

abbrev pub same_integer : ℤ → ℤ → Bool
same_integer (pos a) (pos b) = a == b
same_integer (negsuc a) (negsuc b) = a == b
same_integer (pos a) (negsuc b) = false
same_integer (negsuc a) (pos b) = false

pub same_integer_iff : (a b : ℤ) → (same_integer a b ≡ true) ↔ (a ≡ b)
same_integer_iff (pos a) (pos b) = ground arith
same_integer_iff (pos a) (negsuc b) = ground arith
same_integer_iff (negsuc a) (pos b) = ground arith
same_integer_iff (negsuc a) (negsuc b) = ground arith

instance abbrev pub integer_key : Key ℤ
integer_key = record { same = same_integer; same_iff = same_integer_iff }

module _ {ℓ κ} {A : Type ℓ} {B : Type κ} ⦃e : Key A⦄ ⦃f : Key B⦄ where
  abbrev pub same_pair : A × B → A × B → Bool
  same_pair (a, b) (c, d) = (a =? c) && (b =? d)

  pub same_pair_iff : (p q : A × B) → (same_pair p q ≡ true) ↔ (p ≡ q)
  same_pair_iff (a, b) (c, d) = ground (arith, e.same_iff a c, f.same_iff b d)

  instance abbrev pub pair_key : Key (A × B)
  pair_key = record { same = same_pair; same_iff = same_pair_iff }

module _ {ℓ} {A : Type ℓ} ⦃e : Key A⦄ where
  pub =?_refl : (a : A) → (a =? a) ≡ true
  =?_refl a = (e.same_iff a a).1 refl

  pub =?_ne : (a b : A) → a ≢ b → (a =? b) ≡ false
  =?_ne a b n = elim (Bool-cases (a =? b)) [ inl p ↦ absurd (n ((e.same_iff a b).0 p)) | inr p ↦ p ]

  pub ne_of_=? : (a b : A) → (a =? b) ≡ false → a ≢ b
  ne_of_=? a b p q = cc ((e.same_iff a b).1 q)
