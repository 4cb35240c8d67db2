-- ===== src/Memory/Contents.antt =====
-- What a reader sees after a store or a deletion.
use cyxcloud.Prelude.{
  ◌<◌, false, Option, none, some, List, length, Key, ◌=?◌, =?_refl, ◌≡◌, ◌⊎◌, refl, sym, ap, ◌∙◌,
  if◌then◌else◌, Bool-cases, inl, inr, arith,
}
use cyxcloud.Prelude.Assoc.{get as lookup, get-insert, get-remove}
use cyxcloud.Prelude.Results.{ok, err}
use cyxcloud.Error.{storage_full}
use cyxcloud.Memory.{
  MemoryBackend, fetch_add, has_room, store, put, get, delete, delete_found, exists, is_some,
}

module _ {K B : Type 0} ⦃e : Key K⦄ where
  full :
      (bytes : List B) (m : MemoryBackend K B)
      → has_room bytes m ≡ false
      → (0 < m.max_capacity) × (m.max_capacity < fetch_add m.bytes_used (length bytes))
  unfolding has_room
  full bytes m h = ground arith

  reads_after :
      (id : K) (o : Option (List B)) (m : MemoryBackend K B)
      → lookup id m.chunks ≡ o
      → (j : K)
      → lookup j (delete_found id o m).0.chunks ≡ (if id =? j then none else lookup j m.chunks)
  reads_after id none m h j = elim (Bool-cases (id =? j)) [
    | inl t ↦ rw t (ap (λ i. lookup i m.chunks) (sym ((e.same_iff id j).0 t)) ∙ h)
    | inr t ↦ rw t refl
  ]
  reads_after id (some old) m h j = get-remove id j m.chunks

  deletes_found :
      (id : K) (o : Option (List B)) (m : MemoryBackend K B) → (delete_found id o m).1 ≡ is_some o
  deletes_found id none m = refl
  deletes_found id (some old) m = refl

module _ {K B : Type 0} ⦃e : Key K⦄ (id : K) (bytes : List B) (m : MemoryBackend K B) where
  -- A call of `put` either stores the chunk, so that a read of its identifier gives it and a read of any
  -- other identifier gives what it gave before, or it is refused with the numbers of the full store,
  -- which happens only under a capacity that the bytes in use and the new ones exceed, and changes
  -- nothing.
  pub put_outcome :
      (((put id bytes m).1 ≡ ok tt)
        × ((j : K) → (get j (put id bytes m).0).1 ≡ (if id =? j then some bytes else (get j m).1)))
      ⊎ ((put id bytes m ≡ (m, err (storage_full m.bytes_used m.max_capacity)))
          × ((0 < m.max_capacity) × (m.max_capacity < fetch_add m.bytes_used (length bytes))))
  unfolding put get store has_room
  put_outcome = elim (Bool-cases (has_room bytes m)) [
    | inl h ↦ inl (rw h refl, λ j. rw h (get-insert id j bytes m.chunks))
    | inr h ↦ inr (rw h refl, full bytes m h)
  ]

module _ {K B : Type 0} ⦃e : Key K⦄ (id : K) (m : MemoryBackend K B) where
  -- `delete` says whether the chunk was there; afterwards it is gone, and all others read as before.
  pub delete_outcome :
      ((delete id m).1 ≡ exists id m)
      × (exists id (delete id m).0 ≡ false)
      × ((j : K) → (get j (delete id m).0).1 ≡ (if id =? j then none else (get j m).1))
  unfolding delete exists get
  delete_outcome =
      let reads = reads_after id (lookup id m.chunks) m refl in
      (
        deletes_found id (lookup id m.chunks) m,
        ap is_some (reads id ∙ ap (λ b. if b then none else lookup id m.chunks) (=?_refl id)),
        reads,
      )
