-- ===== src/Prelude/Slices.antt =====
-- Slices of the standard library: `chunks`, `resize`, `truncate`, `concat`, `div_ceil`.
use cyxcloud.Prelude.Lists.{
  length, take, drop, replicate, take-append-drop, length-take, length-drop, length-append,
  length-replicate,
}
use cyxcloud.Prelude.Lists.{All}
use Prim.Native.Nat.{ℕ, zero, suc, ◌+◌, ◌-◌, ◌*◌, ◌/◌, ◌≤◌, ◌<◌}
use mathlib.Core.Path.{◌≡◌, refl, ap, ◌∙◌}
use mathlib.Core.Option.{Option, none, some}
use mathlib.Core.List.{List, [], ◌∷◌, ◌++◌}
use native.Mathlib.Omega.{arith}

-- `usize::div_ceil`
abbrev pub div_ceil : ℕ → ℕ → ℕ
div_ceil a b = (a + b - 1) / b

div_ceil_step : (a n : ℕ) → 0 < n → 0 < a → suc (div_ceil (a - n) n) ≡ div_ceil a n
div_ceil_step a n p h = grind arith

module _ {ℓ} {A : Type ℓ} where
  -- The pieces of at most `n` elements, one for each unit of fuel.
  pub chunks_from : ℕ → ℕ → List A → List (List A)
  chunks_from zero n xs = []
  chunks_from (suc f) n [] = []
  chunks_from (suc f) n (x ∷ xs) = take n (x ∷ xs) ∷ chunks_from f n (drop n (x ∷ xs))

  -- `slice::chunks(n)` for a positive `n`: the length is fuel enough.
  unfoldable pub chunks : ℕ → List A → List (List A)
  unfolding chunks_from
  chunks n xs = chunks_from (length xs) n xs

  -- `Vec::resize`
  unfoldable pub resize : ℕ → A → List A → List A
  resize n a xs = take n xs ++ replicate (n - length xs) a

  unfoldable pub concat : List (List A) → List A
  concat [] = []
  concat (xs ∷ xss) = xs ++ concat xss

  pub concat-chunks_from :
      (f n : ℕ) (xs : List A) → 0 < n → length xs ≤ f → concat (chunks_from f n xs) ≡ xs
  unfolding concat chunks_from
  concat-chunks_from zero n [] p h = refl
  concat-chunks_from zero n (x ∷ xs) p h = absurd (omega arith)
  concat-chunks_from (suc f) n [] p h = refl
  concat-chunks_from (suc f) n (x ∷ xs) p h =
      ap (◌++◌ (take n (x ∷ xs)))
        (concat-chunks_from f n (drop n (x ∷ xs)) p (omega (arith, length-drop n (x ∷ xs))))
      ∙ take-append-drop n (x ∷ xs)

  pub chunks_from-le :
      (f n : ℕ) (xs : List A) → 0 < n → All (λ ys. length ys ≤ n) (chunks_from f n xs)
  unfolding chunks_from
  chunks_from-le zero n xs p = tt
  chunks_from-le (suc f) n [] p = tt
  chunks_from-le (suc f) n (x ∷ xs) p =
      (omega (arith, length-take n (x ∷ xs)), chunks_from-le f n (drop n (x ∷ xs)) p)

  pub chunks-le : (n : ℕ) (xs : List A) → 0 < n → All (λ ys. length ys ≤ n) (chunks n xs)
  unfolding chunks
  chunks-le n xs p = chunks_from-le (length xs) n xs p

  pub length-chunks_from :
      (f n : ℕ) (xs : List A)
      → 0 < n
      → length xs ≤ f
      → length (chunks_from f n xs) ≡ div_ceil (length xs) n
  unfolding chunks_from
  length-chunks_from zero n [] p h = grind arith
  length-chunks_from zero n (x ∷ xs) p h = absurd (omega arith)
  length-chunks_from (suc f) n [] p h = grind arith
  length-chunks_from (suc f) n (x ∷ xs) p h =
      let rest =
        length-chunks_from f n (drop n (x ∷ xs)) p (omega (arith, length-drop n (x ∷ xs))) in
      let len = length-drop n (x ∷ xs) in
      ap suc (rest ∙ ap (λ k. div_ceil k n) len) ∙ div_ceil_step (suc (length xs)) n p (omega arith)

  pub length-chunks : (n : ℕ) (xs : List A) → 0 < n → length (chunks n xs) ≡ div_ceil (length xs) n
  unfolding chunks
  length-chunks n xs p = length-chunks_from (length xs) n xs p (omega arith)

  pub concat-chunks : (n : ℕ) (xs : List A) → 0 < n → concat (chunks n xs) ≡ xs
  unfolding chunks
  concat-chunks n xs p = concat-chunks_from (length xs) n xs p (omega arith)

  pub length-resize : (n : ℕ) (a : A) (xs : List A) → length (resize n a xs) ≡ n
  unfolding resize
  length-resize n a xs = omega (
    arith,
    length-append (take n xs) (replicate (n - length xs) a),
    length-take n xs,
    length-replicate (n - length xs) a,
  )

  take-append : (xs ys : List A) → take (length xs) (xs ++ ys) ≡ xs
  take-append [] ys = refl
  take-append (x ∷ xs) ys = ap (◌∷◌ x) (take-append xs ys)

  take_all : (n : ℕ) (xs : List A) → length xs ≤ n → take n xs ≡ xs
  take_all zero [] h = refl
  take_all zero (x ∷ xs) h = absurd (omega arith)
  take_all (suc n) [] h = refl
  take_all (suc n) (x ∷ xs) h = ap (◌∷◌ x) (take_all n xs (omega arith))

  -- Padding is undone by truncating to the original length.
  pub take-resize :
      (n : ℕ) (a : A) (xs : List A) → length xs ≤ n → take (length xs) (resize n a xs) ≡ xs
  unfolding resize
  take-resize n a xs h = rw (take_all n xs h) (take-append xs (replicate (n - length xs) a))

  -- Lists of `d` pieces of `n` elements each.
  abbrev pub HasShape : ℕ → ℕ → List (List A) → Type 0
  HasShape zero n [] = Unit
  HasShape zero n (p ∷ ps) = ⊥
  HasShape (suc d) n [] = ⊥
  HasShape (suc d) n (p ∷ ps) = (length p ≡ n) × HasShape d n ps

  pub chunks_from-HasShape :
      (d f n : ℕ) (xs : List A)
      → 0 < n
      → length xs ≤ f
      → length xs ≡ d * n
      → HasShape d n (chunks_from f n xs)
  unfolding chunks_from
  chunks_from-HasShape zero zero n xs p h e = tt
  chunks_from-HasShape zero (suc f) n [] p h e = tt
  chunks_from-HasShape zero (suc f) n (x ∷ xs) p h e = absurd (omega arith)
  chunks_from-HasShape (suc d) zero n xs p h e = absurd (omega arith)
  chunks_from-HasShape (suc d) (suc f) n [] p h e = absurd (omega arith)
  chunks_from-HasShape (suc d) (suc f) n (x ∷ xs) p h e = (
    omega (arith, length-take n (x ∷ xs)),
    chunks_from-HasShape d f n (drop n (x ∷ xs)) p (omega (arith, length-drop n (x ∷ xs)))
        (omega (arith, length-drop n (x ∷ xs))),
  )

  -- A list of `d * n` elements falls into `d` chunks of `n`.
  pub chunks-HasShape :
      (d n : ℕ) (xs : List A) → 0 < n → length xs ≡ d * n → HasShape d n (chunks n xs)
  unfolding chunks
  chunks-HasShape d n xs p e = chunks_from-HasShape d (length xs) n xs p (omega arith) e

-- `iter().filter(|o| o.is_some()).count()`
unfoldable pub count_some {ℓ} : {A : Type ℓ} → List (Option A) → ℕ
count_some [] = 0
count_some (none ∷ os) = count_some os
count_some (some a ∷ os) = suc (count_some os)

module _ {A : Type 0} where
  pub length_of_HasShape : (d n : ℕ) (ps : List (List A)) → HasShape d n ps → length ps ≡ d
  length_of_HasShape zero n [] h = refl
  length_of_HasShape zero n (p ∷ ps) h = elim h [ ]
  length_of_HasShape (suc d) n [] h = elim h [ ]
  length_of_HasShape (suc d) n (p ∷ ps) h = ap suc (length_of_HasShape d n ps h.1)

  pub replicate-HasShape : (p n : ℕ) (a : A) → HasShape p n (replicate p (replicate n a))
  replicate-HasShape zero n a = tt
  replicate-HasShape (suc p) n a = (length-replicate n a, replicate-HasShape p n a)

  pub take-append_lem : (n : ℕ) (xs ys : List A) → length xs ≡ n → take n (xs ++ ys) ≡ xs
  take-append_lem n xs ys e = rw (← e) (take-append xs ys)
