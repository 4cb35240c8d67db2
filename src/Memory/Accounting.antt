-- ===== src/Memory/Accounting.antt =====
-- The counter of bytes is the size of what is stored.
use cyxcloud.Prelude.{
  ℕ, ◌+◌, ◌%◌, ◌^◌, ◌≢◌, true, Option, none, some, List, [], ◌∷◌, length, Key, All, ◌=?◌, ◌≡◌, refl,
  sym, subst, Bool-cases, inl, inr, arith, =?_ne, ne_of_=?,
}
use cyxcloud.Prelude.Assoc.{Map, get as lookup, insert, remove}
use cyxcloud.Memory.{
  MemoryBackend, fetch_add, fetch_sub, clear, store, get, delete, delete_found, Event, stores,
  reads_one, deletes_one, clears, step, run, without_old,
}

-- The bytes that a table of chunks holds.
unfoldable pub total : {K B : Type 0} → Map K (List B) → ℕ
total [] = 0
total ((k, v) ∷ m) = length v + total m

abbrev pub size_of : {B : Type 0} → Option (List B) → ℕ
size_of none = 0
size_of (some v) = length v

-- No identifier stands twice.
abbrev pub Distinct : {K B : Type 0} → Map K (List B) → Type 0
Distinct [] = Unit
Distinct ((k, v) ∷ m) = All (λ c. c.0 ≢ k) m × Distinct m

-- The counter after a store and after a deletion.
counter_stored :
    {B : Type 0} (o : Option (List B)) (used t t' l : ℕ)
    → used ≡ t % 2 ^ 64
    → t' + size_of o ≡ t + l
    → fetch_add (without_old o used) l ≡ t' % 2 ^ 64
counter_stored none used t t' l h k = omega arith
counter_stored (some old) used t t' l h k = omega arith

counter_deleted :
    (used t t' s : ℕ) → used ≡ t % 2 ^ 64 → t' + s ≡ t → fetch_sub used s ≡ t' % 2 ^ 64
counter_deleted used t t' s h k = omega arith

module _ {K B : Type 0} ⦃e : Key K⦄ where
  pub total-insert :
      (k : K) (v : List B) (m : Map K (List B))
      → total (insert k v m) + size_of (lookup k m) ≡ total m + length v
  unfolding total insert lookup
  total-insert k v [] = omega arith
  total-insert k v ((j, w) ∷ m) = ground (arith, total-insert k v m)

  remove_absent : (k : K) (m : Map K (List B)) → All (λ c. c.0 ≢ k) m → remove k m ≡ m
  unfolding remove
  remove_absent k [] h = refl
  remove_absent k ((j, w) ∷ m) h = ground (arith, remove_absent k m, =?_ne j k h.0, h.1)

  -- What is taken out was there once.
  pub total-remove :
      (k : K) (m : Map K (List B))
      → Distinct m
      → total (remove k m) + size_of (lookup k m) ≡ total m
  unfolding total remove lookup
  total-remove k [] d = refl
  total-remove k ((j, w) ∷ m) d = elim (Bool-cases (j =? k)) [
    | inl h ↦ rw h (rw (gone h) (omega arith))
    | inr h ↦ rw h (omega (arith, total-remove k m d.1))
  ]
    where
      gone : (j =? k) ≡ true → remove k m ≡ m
      gone h = remove_absent k m (subst (λ i. All (λ c. c.0 ≢ i) m) ((e.same_iff j k).0 h) d.0)

  All-insert :
      (j k : K) (v : List B) (m : Map K (List B))
      → k ≢ j
      → All (λ c. c.0 ≢ j) m
      → All (λ c. c.0 ≢ j) (insert k v m)
  unfolding insert
  All-insert j k v [] n h = (n, tt)
  All-insert j k v ((i, w) ∷ m) n h = elim (Bool-cases (i =? k)) [
    | inl t ↦ rw t (n, h.1)
    | inr t ↦ rw t (h.0, All-insert j k v m n h.1)
  ]

  pub Distinct-insert :
      (k : K) (v : List B) (m : Map K (List B)) → Distinct m → Distinct (insert k v m)
  unfolding insert
  Distinct-insert k v [] d = (tt, tt)
  Distinct-insert k v ((j, w) ∷ m) d = elim (Bool-cases (j =? k)) [
    | inl t ↦ rw t (subst (λ i. All (λ c. c.0 ≢ i) m) ((e.same_iff j k).0 t) d.0, d.1)
    | inr t ↦ rw t (All-insert j k v m (λ p. ne_of_=? j k t (sym p)) d.0, Distinct-insert k v m d.1)
  ]

  All-remove :
      (j k : K) (m : Map K (List B)) → All (λ c. c.0 ≢ j) m → All (λ c. c.0 ≢ j) (remove k m)
  unfolding remove
  All-remove j k [] h = tt
  All-remove j k ((i, w) ∷ m) h = elim (Bool-cases (i =? k)) [
    | inl t ↦ rw t (All-remove j k m h.1)
    | inr t ↦ rw t (h.0, All-remove j k m h.1)
  ]

  pub Distinct-remove : (k : K) (m : Map K (List B)) → Distinct m → Distinct (remove k m)
  unfolding remove
  Distinct-remove k [] d = tt
  Distinct-remove k ((j, w) ∷ m) d = elim (Bool-cases (j =? k)) [
    | inl t ↦ rw t (Distinct-remove k m d.1)
    | inr t ↦ rw t (All-remove j k m d.0, Distinct-remove k m d.1)
  ]

  -- The counter agrees with the table, as far as 64 bits go.
  abbrev pub Accounts : MemoryBackend K B → Type 0
  Accounts m = Distinct m.chunks × (m.bytes_used ≡ total m.chunks % 2 ^ 64)

  delete-Accounts :
      (id : K) (o : Option (List B)) (m : MemoryBackend K B)
      → lookup id m.chunks ≡ o
      → Accounts m
      → Accounts (delete_found id o m).0
  delete-Accounts id none m h a = a
  delete-Accounts id (some old) m h a = (
    Distinct-remove id m.chunks a.0,
    counter_deleted m.bytes_used (total m.chunks) _ (length old) a.1 (
        subst (λ o. total (remove id m.chunks) + size_of o ≡ total m.chunks) h
          (total-remove id m.chunks a.0)),
  )

  pub step-Accounts : (m : MemoryBackend K B) (v : Event K B) → Accounts m → Accounts (step m v)
  unfolding step store get delete clear total
  step-Accounts m (stores id bytes) a = (
    Distinct-insert id bytes m.chunks a.0,
    counter_stored (lookup id m.chunks) m.bytes_used (total m.chunks) _ (length bytes) a.1
        (total-insert id bytes m.chunks),
  )
  step-Accounts m (reads_one id) a = a
  step-Accounts m (deletes_one id) a = delete-Accounts id (lookup id m.chunks) m refl a
  step-Accounts m clears a = (tt, refl)

  -- Whatever the threads do, and in whatever order they take the lock, the counter of bytes is the size
  -- of the stored chunks modulo 2 ^ 64, and no identifier stands twice.
  pub run-Accounts :
      (es : List (Event K B)) (m : MemoryBackend K B) → Accounts m → Accounts (run m es)
  unfolding run
  run-Accounts [] m a = a
  run-Accounts (v ∷ es) m a = run-Accounts es (step m v) (step-Accounts m v a)
