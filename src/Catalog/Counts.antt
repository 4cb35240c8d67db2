-- ===== src/Catalog/Counts.antt =====
-- How many entries of a map have a key that passes a test, under the writes of Prelude/Assoc.
use cyxcloud.Prelude.{
  ℕ, ◌+◌, ◌≤◌, Bool, true, false, some, [], ◌∷◌, ◌≡◌, ap, subst, if◌then◌else◌, ◌=?◌, Key,
  Bool-cases, inl, inr, arith,
}
use cyxcloud.Prelude.Assoc.{Map, get, insert, remove}

abbrev pub one_if : Bool → ℕ
one_if true = 1
one_if false = 0

-- How many entries of a map have a key that passes the test.
module _ {K V : Type 0} ⦃e : Key K⦄ (test : K → Bool) where
  abbrev pub count_keys : Map K V → ℕ
  count_keys [] = 0
  count_keys ((k, v) ∷ m) = one_if (test k) + count_keys m

  pub count_keys-insert :
      (k : K) (v : V) (m : Map K V) → count_keys (insert k v m) ≤ one_if (test k) + count_keys m
  unfolding insert
  count_keys-insert k v [] = omega arith
  count_keys-insert k v ((j, w) ∷ m) = elim (Bool-cases (j =? k)) [
    | inl t ↦ rw t (omega (arith))
    | inr t ↦ rw t (omega (arith, count_keys-insert k v m))
  ]

  -- Where the key is there already, the count stays.
  pub count_keys-insert_old :
      (k : K) (v w : V) (m : Map K V) → get k m ≡ some w → count_keys (insert k v m) ≤ count_keys m
  unfolding insert get
  count_keys-insert_old k v w [] h = absurd (ground arith)
  count_keys-insert_old k v w ((j, x) ∷ m) h = elim (Bool-cases (j =? k)) [
    | inl t ↦ rw t (rw (ap (λ i. one_if (test i)) ((e.same_iff j k).0 t)) (omega arith))
    | inr t ↦ rw t (
        omega (
          arith,
          count_keys-insert_old k v w m (subst (λ b. (if b then some x else get k m) ≡ some w) t h),
        ))
  ]

  pub count_keys-remove : (k : K) (m : Map K V) → count_keys (remove k m) ≤ count_keys m
  unfolding remove
  count_keys-remove k [] = omega arith
  count_keys-remove k ((j, w) ∷ m) = elim (Bool-cases (j =? k)) [
    | inl t ↦ rw t (omega (arith, count_keys-remove k m))
    | inr t ↦ rw t (omega (arith, count_keys-remove k m))
  ]
