-- ===== src/Memory/Capacity.antt =====
-- A backend that is used by one thread at a time stays within its capacity.
use cyxcloud.Prelude.{
  ℕ, ◌+◌, ◌%◌, ◌^◌, ◌≤◌, ◌<◌, Bool, true, false, List, [], ◌∷◌, length, Key, All, ◌≡◌, refl, sym,
  subst, ◌∙◌, arith, Option, none, some, if◌then◌else◌,
}
use cyxcloud.Prelude.Assoc.{get as lookup}
use cyxcloud.Memory.{
  MemoryBackend, with_capacity, clear, store, put, get, delete, delete_found, has_room, stores,
  deletes_one, step, fetch_add,
}
use cyxcloud.Memory.Accounting.{total, size_of, Accounts, total-insert, total-remove, step-Accounts}

-- Whole calls of the backend, one after the other.
pub data Request (K B : Type 0) : Type 0 where
  puts : K → List B → Request K B
  gets deletes : K → Request K B
  clears : Request K B

module _ {K B : Type 0} ⦃e : Key K⦄ where
  unfoldable pub serve : MemoryBackend K B → Request K B → MemoryBackend K B
  serve m (puts id bytes) = (put id bytes m).0
  serve m (gets id) = (get id m).0
  serve m (deletes id) = (delete id m).0
  serve m clears = clear m

  unfoldable pub serve_all : MemoryBackend K B → List (Request K B) → MemoryBackend K B
  unfolding serve
  serve_all m [] = m
  serve_all m (r ∷ rs) = serve_all (serve m r) rs

-- No slice is longer than `isize::MAX`.
abbrev pub IsSmall : {K B : Type 0} → Request K B → Type 0
IsSmall (puts id bytes) = length bytes < 2 ^ 63
IsSmall (gets id) = Unit
IsSmall (deletes id) = Unit
IsSmall clears = Unit

-- The bytes that pass the test fit, and the counter of what fits has not wrapped.
room :
    (capacity used t l : ℕ)
    → 0 < capacity
    → capacity ≤ 2 ^ 63
    → used ≡ t % 2 ^ 64
    → t ≤ capacity
    → l < 2 ^ 63
    → fetch_add used l ≤ capacity
    → t + l ≤ capacity
room capacity used t l p q h k s r = omega arith

exact : (capacity used t : ℕ) → capacity ≤ 2 ^ 63 → used ≡ t % 2 ^ 64 → t ≤ capacity → used ≡ t
exact capacity used t q h k = omega arith

le_of_sum : (t' s t l c : ℕ) → t' + s ≡ t + l → t + l ≤ c → t' ≤ c
le_of_sum t' s t l c h k = omega arith

module _ {K B : Type 0} ⦃e : Key K⦄ (capacity : ℕ) where
  abbrev pub Fits : MemoryBackend K B → Type 0
  Fits m = (m.max_capacity ≡ capacity) × Accounts m × (total m.chunks ≤ capacity)

  module _ (p : 0 < capacity) (q : capacity ≤ 2 ^ 63) where
    has_room_le :
        (bytes : List B) (m : MemoryBackend K B)
        → m.max_capacity ≡ capacity
        → has_room bytes m ≡ true
        → fetch_add m.bytes_used (length bytes) ≤ capacity
    unfolding has_room
    has_room_le bytes m c h = ground arith

    put-Fits :
        (id : K) (bytes : List B) (m : MemoryBackend K B) (b : Bool)
        → has_room bytes m ≡ b
        → length bytes < 2 ^ 63
        → Fits m
        → Fits (if b then store id bytes m else m)
    unfolding store step
    put-Fits id bytes m false h s f = f
    put-Fits id bytes m true h s (c, a, t) = (
      c,
      step-Accounts m (stores id bytes) a,
      le_of_sum _ (size_of (lookup id m.chunks)) (total m.chunks) (length bytes) capacity
          (total-insert id bytes m.chunks)
          (room capacity m.bytes_used (total m.chunks) (length bytes) p q a.1 t s
            (has_room_le bytes m c h)),
    )

    put_state :
        (id : K) (bytes : List B) (m : MemoryBackend K B)
        → (put id bytes m).0 ≡ (if has_room bytes m then store id bytes m else m)
    unfolding put
    put_state id bytes m = ground arith

    delete-Fits :
        (id : K) (o : Option (List B)) (m : MemoryBackend K B)
        → lookup id m.chunks ≡ o
        → Accounts (delete_found id o m).0
        → Fits m
        → Fits (delete_found id o m).0
    delete-Fits id none m h a f = f
    delete-Fits id (some old) m h a (c, b, t) = (
      c,
      a,
      le_of_sum _ (size_of (lookup id m.chunks)) (total m.chunks) 0 capacity
          (total-remove id m.chunks b.0 ∙ omega arith) (omega arith),
    )

    serve-Fits : (m : MemoryBackend K B) (r : Request K B) → IsSmall r → Fits m → Fits (serve m r)
    unfolding serve get clear delete step total
    serve-Fits m (puts id bytes) s f =
        subst Fits (sym (put_state id bytes m)) (put-Fits id bytes m (has_room bytes m) refl s f)
    serve-Fits m (gets id) s f = f
    serve-Fits m (deletes id) s f =
        delete-Fits id (lookup id m.chunks) m refl (step-Accounts m (deletes_one id) f.1) f
    serve-Fits m clears s (c, a, t) = (c, (tt, refl), omega arith)

    serve_all-Fits :
        (rs : List (Request K B)) (m : MemoryBackend K B)
        → All IsSmall rs
        → Fits m
        → Fits (serve_all m rs)
    unfolding serve_all
    serve_all-Fits [] m s f = f
    serve_all-Fits (r ∷ rs) m s f = serve_all-Fits rs (serve m r) s.1 (serve-Fits m r s.0 f)

    -- Whatever calls are made of a new backend with a capacity, the chunks that it holds are together
    -- within the capacity and its counter of bytes is exactly their size.
    pub serve_all-capacity :
        (rs : List (Request K B))
        → All IsSmall rs
        → let m = serve_all (with_capacity capacity) rs in
          (total m.chunks ≤ capacity) × (m.bytes_used ≡ total m.chunks)
    unfolding with_capacity total
    serve_all-capacity rs s =
        let (_, (_, u), t) =
          serve_all-Fits rs (with_capacity capacity) s (refl, (tt, refl), omega arith) in
        (t, exact capacity _ _ q u t)
