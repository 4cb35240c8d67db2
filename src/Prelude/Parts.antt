-- ===== src/Prelude/Parts.antt =====
-- Lists that drop elements of another list, and the keys that stay distinct in them.
use cyxcloud.Prelude.Tests.{Bool-cases}
use cyxcloud.Prelude.Lists.{All, Unique}
use cyxcloud.Prelude.Rows.{select}
use cyxcloud.Prelude.Sorting.{place, sort_by, All-place, All-sort_by}
use mathlib.Core.Bool.{Bool}
use mathlib.Core.List.{List, [], ◌∷◌, ◌++◌}
use mathlib.Core.Logic.{◌≢◌, ◌⊎◌, inl, inr}
use mathlib.Core.Path.{◌≡◌, refl, sym, ap, subst}

-- The first list is what is left of the second after some elements are dropped.
abbrev pub Part : {A : Type 0} → List A → List A → Type 0
Part xs [] = xs ≡ []
Part [] (y ∷ ys) = Unit
Part (x ∷ xs) (y ∷ ys) = ((x ≡ y) × Part xs ys) ⊎ Part (x ∷ xs) ys

module _ {A : Type 0} where
  pub Part-refl : (xs : List A) → Part xs xs
  Part-refl [] = refl
  Part-refl (x ∷ xs) = inl (refl, Part-refl xs)

  pub Part-skip : (y : A) (xs ys : List A) → Part xs ys → Part xs (y ∷ ys)
  Part-skip y [] ys h = tt
  Part-skip y (x ∷ xs) ys h = inr h

  pub Part-All : (P : A → Type 0) (xs ys : List A) → Part xs ys → All P ys → All P xs
  Part-All P xs [] h a = subst (All P) (sym h) tt
  Part-All P [] (y ∷ ys) h a = tt
  Part-All P (x ∷ xs) (y ∷ ys) (inl h) a = (subst P (sym h.0) a.0, Part-All P xs ys h.1 a.1)
  Part-All P (x ∷ xs) (y ∷ ys) (inr h) a = Part-All P (x ∷ xs) ys h a.1

  pub Part-insert : (y : A) (xs ys zs : List A) → Part xs (ys ++ zs) → Part xs (ys ++ (y ∷ zs))
  Part-insert y xs [] zs h = Part-skip y xs zs h
  Part-insert y [] (w ∷ ys) zs h = tt
  Part-insert y (x ∷ xs) (w ∷ ys) zs (inl h) = inl (h.0, Part-insert y xs ys zs h.1)
  Part-insert y (x ∷ xs) (w ∷ ys) zs (inr h) = inr (Part-insert y (x ∷ xs) ys zs h)

  pub Part-stop : (xs ys : List A) → Part xs (xs ++ ys)
  Part-stop [] [] = refl
  Part-stop [] (y ∷ ys) = tt
  Part-stop (x ∷ xs) ys = inl (refl, Part-stop xs ys)

module _ {A K : Type 0} (key : A → K) where
  pub Part-Unique : (xs ys : List A) → Part xs ys → Unique key ys → Unique key xs
  Part-Unique xs [] h u = subst (Unique key) (sym h) tt
  Part-Unique [] (y ∷ ys) h u = tt
  Part-Unique (x ∷ xs) (y ∷ ys) (inl h) u = (
    subst (λ k. All (λ z. key z ≢ k) xs) (sym (ap key h.0))
        (Part-All (λ z. key z ≢ key y) xs ys h.1 u.0),
    Part-Unique xs ys h.1 u.1,
  )
  Part-Unique (x ∷ xs) (y ∷ ys) (inr h) u = Part-Unique (x ∷ xs) ys h u.1

  place-Unique :
      (before : A → A → Bool) (a : A) (xs : List A)
      → All (λ y. key y ≢ key a) xs
      → Unique key xs
      → Unique key (place before a xs)
  unfolding place
  place-Unique before a [] h u = (tt, tt)
  place-Unique before a (x ∷ xs) h u = elim (Bool-cases (before a x)) [
    | inl t ↦ rw t (h, u)
    | inr t ↦ rw t (All_place u.0, place-Unique before a xs h.1 u.1)
  ]
    where
      All_place : All (λ y. key y ≢ key x) xs → All (λ y. key y ≢ key x) (place before a xs)
      All_place k = All-place before (λ y. key y ≢ key x) a xs (λ e. h.0 (sym e)) k

  pub sort_by-Unique :
      (before : A → A → Bool) (xs : List A) → Unique key xs → Unique key (sort_by before xs)
  unfolding sort_by
  sort_by-Unique before [] u = tt
  sort_by-Unique before (x ∷ xs) u =
      place-Unique before x (sort_by before xs) (All-sort_by before (λ y. key y ≢ key x) xs u.0)
        (sort_by-Unique before xs u.1)

pub select-Part : {A : Type 0} (test : A → Bool) (xs : List A) → Part (select test xs) xs
unfolding select
select-Part test [] = refl
select-Part test (x ∷ xs) = elim (Bool-cases (test x)) [
  | inl t ↦ rw t (inl (refl, select-Part test xs))
  | inr t ↦ rw t (Part-skip x (select test xs) xs (select-Part test xs))
]
