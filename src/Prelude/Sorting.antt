-- ===== src/Prelude/Sorting.antt =====
-- The standard library's stable `sort_by`, as insertion from the right, and what it promises.
use cyxcloud.Prelude.Tests.{leb, if◌then◌else◌, Bool-cases}
use cyxcloud.Prelude.Lists.{length, All, All-imp}
use Prim.Native.Nat.{ℕ, suc}
use mathlib.Core.Bool.{Bool, true, false}
use mathlib.Core.List.{List, [], ◌∷◌, map, Perm, Permᴰ, Nodup, Nodup-cons, mem-cons}
use mathlib.Core.List.Perm
use mathlib.Core.Logic.{◌≢◌, inl, inr, ∥∥₁_elim}
use mathlib.Core.Logic.Or
use mathlib.Core.Path.{◌≡◌, refl, ap, sym, ◌∙◌}
use native.Mathlib.Omega.{arith}

-- `before a b` says that `a` may stand before `b`: the comparison is not `Greater`.
module _ {ℓ} {A : Type ℓ} (before : A → A → Bool) where
  unfoldable pub place : A → List A → List A
  place a [] = a ∷ []
  place a (x ∷ xs) = if before a x then a ∷ x ∷ xs else x ∷ place a xs

  unfoldable pub sort_by : List A → List A
  unfolding place
  sort_by [] = []
  sort_by (x ∷ xs) = place x (sort_by xs)

  -- Each element may stand before all that follow it.
  abbrev pub IsSortedBy : List A → Type ℓ
  IsSortedBy [] = Unit
  IsSortedBy (x ∷ xs) = All (λ y. before x y ≡ true) xs × IsSortedBy xs

  place-perm : (a : A) (xs : List A) → Perm (place a xs) (a ∷ xs)
  unfolding place
  place-perm a [] = Perm.refl (a ∷ [])
  place-perm a (x ∷ xs) = elim (Bool-cases (before a x)) [
    | inl h ↦ rw h (Perm.refl (a ∷ x ∷ xs))
    | inr h ↦ rw h (Perm.trans (Perm.cons x (place-perm a xs)) (Perm.swap a x xs))
  ]

  pub sort_by-perm : (xs : List A) → Perm (sort_by xs) xs
  unfolding sort_by
  sort_by-perm [] = Perm.refl []
  sort_by-perm (x ∷ xs) = Perm.trans (place-perm x (sort_by xs)) (Perm.cons x (sort_by-perm xs))

  pub All-place {κ} : (P : A → Type κ) (a : A) (xs : List A) → P a → All P xs → All P (place a xs)
  unfolding place
  All-place P a [] p h = (p, tt)
  All-place P a (x ∷ xs) p h = elim (Bool-cases (before a x)) [
    | inl t ↦ rw t (p, h)
    | inr t ↦ rw t (h.0, All-place P a xs p h.1)
  ]

  pub All-sort_by {κ} : (P : A → Type κ) (xs : List A) → All P xs → All P (sort_by xs)
  unfolding sort_by
  All-sort_by P [] h = tt
  All-sort_by P (x ∷ xs) h = All-place P x (sort_by xs) h.0 (All-sort_by P xs h.1)

  length-place : (a : A) (xs : List A) → length (place a xs) ≡ suc (length xs)
  unfolding place
  length-place a [] = refl
  length-place a (x ∷ xs) = ground (arith, length-place a xs)

  pub length-sort_by : (xs : List A) → length (sort_by xs) ≡ length xs
  unfolding sort_by
  length-sort_by [] = refl
  length-sort_by (x ∷ xs) = length-place x (sort_by xs) ∙ ap suc (length-sort_by xs)

  -- A list that is in order stays as it is: the sort is stable.
  pub sort_by_of_IsSortedBy : (xs : List A) → IsSortedBy xs → sort_by xs ≡ xs
  unfolding sort_by
  sort_by_of_IsSortedBy [] h = refl
  sort_by_of_IsSortedBy (x ∷ []) h = refl
  sort_by_of_IsSortedBy (x ∷ y ∷ xs) h =
      rw (sort_by_of_IsSortedBy (y ∷ xs) h.1) (ground (arith, h.0.0))

  module _ (total : (a b : A) → before a b ≡ false → before b a ≡ true)
      (trans : (a b c : A) → before a b ≡ true → before b c ≡ true → before a c ≡ true) where
    place-IsSortedBy : (a : A) (xs : List A) → IsSortedBy xs → IsSortedBy (place a xs)
    unfolding place
    place-IsSortedBy a [] h = (tt, tt)
    place-IsSortedBy a (x ∷ xs) h = elim (Bool-cases (before a x)) [
      | inl t ↦ rw t ((t, All-imp (λ y. trans a x y t) xs h.0), h)
      | inr t ↦
          rw t
            (All-place (λ y. before x y ≡ true) a xs (total a x t) h.0, place-IsSortedBy a xs h.1)
    ]

    pub sort_by-IsSortedBy : (xs : List A) → IsSortedBy (sort_by xs)
    unfolding sort_by
    sort_by-IsSortedBy [] = tt
    sort_by-IsSortedBy (x ∷ xs) = place-IsSortedBy x (sort_by xs) (sort_by-IsSortedBy xs)

-- `sort_by_key`, and sorting by a key from the highest down.
module _ {ℓ} {A : Type ℓ} (key : A → ℕ) where
  abbrev pub ascending : A → A → Bool
  ascending a b = leb (key a) (key b)

  abbrev pub descending : A → A → Bool
  descending a b = leb (key b) (key a)

  pub descending-IsSortedBy : (xs : List A) → IsSortedBy descending (sort_by descending xs)
  descending-IsSortedBy =
      sort_by-IsSortedBy descending (λ a b h. ground arith) (λ a b c h k. ground arith)

  pub ascending-IsSortedBy : (xs : List A) → IsSortedBy ascending (sort_by ascending xs)
  ascending-IsSortedBy =
      sort_by-IsSortedBy ascending (λ a b h. ground arith) (λ a b c h k. ground arith)

  place_comm :
      (a b : A) (xs : List A)
      → key a ≢ key b
      → place ascending a (place ascending b xs) ≡ place ascending b (place ascending a xs)
  unfolding place
  place_comm a b [] n = ground arith
  place_comm a b (x ∷ xs) n = ground (arith, place_comm a b xs n)

  -- With distinct keys the result does not depend on the order of the input.
  sort_by-Permᴰ :
      {xs ys : List A}
      → Permᴰ xs ys
      → Nodup (map key xs)
      → sort_by ascending xs ≡ sort_by ascending ys
  unfolding sort_by
  sort_by-Permᴰ Permᴰ.nil n = refl
  sort_by-Permᴰ (Permᴰ.cons {a = a} {b = b} {l₁ = l₁} {l₂ = l₂} e p) n =
      let ih = sort_by-Permᴰ p (Nodup-cons.0 n).1 in rw (e, ih) refl
  sort_by-Permᴰ (Permᴰ.swap {a = a} {b = b} {a' = a'} {b' = b'} {l = l} e f) n =
      rw (e, f)
        (place_comm b' a' (sort_by ascending l)
          (λ q. (Nodup-cons.0 n).0 (mem-cons.1 (Or.inl (ap key e ∙ q ∙ sym (ap key f))))))
  sort_by-Permᴰ (Permᴰ.trans p q) n =
      sort_by-Permᴰ p n ∙ sort_by-Permᴰ q (Perm.nodup (Perm.map key ∣ p ∣₁) n)

  -- So whatever order a list in strict order arrives in, sorting brings it back.
  pub sort_by_of_perm :
      IsSet (List A)
      → (xs ys : List A) → IsSortedBy ascending ys
      → Nodup (map key ys)
      → Perm ys xs
      → sort_by ascending xs ≡ ys
  sort_by_of_perm set xs ys s n p =
      ∥∥₁_elim p (set _ _) (λ d. sym (sort_by-Permᴰ d n) ∙ sort_by_of_IsSortedBy ascending ys s)
