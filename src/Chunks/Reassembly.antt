-- ===== src/Chunks/Reassembly.antt =====
-- Reassembling what was split, in whatever order the chunks arrive.
use mathlib.Core.List.{Mem, Nodup, Nodup-cons, Nodup-nil, Perm, not-mem-nil, mem-cons}
use mathlib.Core.Logic.Or
use mathlib.Core.HLevel.{⊥_prop}
use cyxcloud.Prelude.{
  ℕ, suc, ◌+◌, ◌^◌, ◌≤◌, ◌<◌, ◌≡◌, ◌≢◌, refl, ap, ◌∙◌, true, Option, List, [], ◌∷◌, map, arith,
  length, leb, All,
}
use cyxcloud.Prelude.Slices.{chunks, concat, div_ceil, concat-chunks, length-chunks}
use cyxcloud.Prelude.Sorting.{
  sort_by, ascending, IsSortedBy, sort_by_of_perm, All-sort_by, length-sort_by,
}
use cyxcloud.Prelude.Results.{ok}
use cyxcloud.Error.{fail, insufficient_shards}
use cyxcloud.Chunks.{
  Bytes, Chunk, split_into_chunks, clamp_size, check_indices, join_sorted, reassemble_chunks,
}
use cyxcloud.Chunks.Split.{Made, split-Made}

abbrev index_of : Chunk → ℕ
index_of c = c.index

not-mem_of_All : (n : ℕ) (ks : List ℕ) → All (λ k. n < k) ks → ¬ Mem n ks
not-mem_of_All n [] h m = not-mem-nil m
not-mem_of_All n (k ∷ ks) h m =
    Or.elim ⊥_prop (mem-cons.0 m) (λ e. omega arith) (not-mem_of_All n ks h.1)

module _ (hash : Bytes → Bytes) (t : ℕ) where
  Made-above :
      (i n : ℕ) (bs : List Bytes) (cs : List Chunk)
      → n < i
      → Made hash t i bs cs
      → All (λ k. n < k) (map index_of cs)
  Made-above i n [] [] h m = tt
  Made-above i n [] (c ∷ cs) h m = absurd m
  Made-above i n (b ∷ bs) [] h m = absurd m
  Made-above i n (b ∷ bs) (c ∷ cs) h m = (omega arith, Made-above (i + 1) n bs cs (omega arith) m.5)

  Made-Nodup :
      (i : ℕ) (bs : List Bytes) (cs : List Chunk) → Made hash t i bs cs → Nodup (map index_of cs)
  Made-Nodup i [] [] m = Nodup-nil
  Made-Nodup i [] (c ∷ cs) m = absurd m
  Made-Nodup i (b ∷ bs) [] m = absurd m
  Made-Nodup i (b ∷ bs) (c ∷ cs) m = Nodup-cons.1 (
    not-mem_of_All c.index (map index_of cs) (Made-above (i + 1) c.index bs cs (omega arith) m.5),
    Made-Nodup (i + 1) bs cs m.5,
  )

  Made-after :
      (i n : ℕ) (bs : List Bytes) (cs : List Chunk)
      → n ≤ i
      → Made hash t i bs cs
      → All (λ (c : Chunk). leb n c.index ≡ true) cs
  Made-after i n [] [] h m = tt
  Made-after i n [] (c ∷ cs) h m = absurd m
  Made-after i n (b ∷ bs) [] h m = absurd m
  Made-after i n (b ∷ bs) (c ∷ cs) h m =
      (ground arith, Made-after (i + 1) n bs cs (omega arith) m.5)

  Made-IsSortedBy :
      (i : ℕ) (bs : List Bytes) (cs : List Chunk)
      → Made hash t i bs cs
      → IsSortedBy (ascending index_of) cs
  Made-IsSortedBy i [] [] m = tt
  Made-IsSortedBy i [] (c ∷ cs) m = absurd m
  Made-IsSortedBy i (b ∷ bs) [] m = absurd m
  Made-IsSortedBy i (b ∷ bs) (c ∷ cs) m =
      (Made-after (i + 1) c.index bs cs (omega arith) m.5, Made-IsSortedBy (i + 1) bs cs m.5)

  length-Made :
      (i : ℕ) (bs : List Bytes) (cs : List Chunk) → Made hash t i bs cs → length cs ≡ length bs
  length-Made i [] [] m = refl
  length-Made i [] (c ∷ cs) m = absurd m
  length-Made i (b ∷ bs) [] m = absurd m
  length-Made i (b ∷ bs) (c ∷ cs) m = ap suc (length-Made (i + 1) bs cs m.5)

  check-Made :
      (i : ℕ) (bs : List Bytes) (cs : List Chunk)
      → i + length bs ≤ 2 ^ 32
      → Made hash t i bs cs
      → check_indices t i cs ≡ ok tt
  unfolding check_indices
  check-Made i [] [] h m = refl
  check-Made i [] (c ∷ cs) h m = absurd m
  check-Made i (b ∷ bs) [] h m = absurd m
  check-Made i (b ∷ bs) (c ∷ cs) h m = ground (arith, check-Made (i + 1) bs cs)

  concat-Made :
      (i : ℕ) (bs : List Bytes) (cs : List Chunk)
      → Made hash t i bs cs
      → concat (map (λ (c : Chunk). c.bytes) cs) ≡ concat bs
  unfolding concat
  concat-Made i [] [] m = refl
  concat-Made i [] (c ∷ cs) m = absurd m
  concat-Made i (b ∷ bs) [] m = absurd m
  concat-Made i (b ∷ bs) (c ∷ cs) m = rw (m.2, concat-Made (i + 1) bs cs m.5)

  join-Made :
      (bs : List Bytes) (cs : List Chunk)
      → length bs ≡ t
      → t < 2 ^ 32
      → Made hash t 0 bs cs
      → join_sorted cs ≡ ok (concat bs)
  unfolding join_sorted concat
  join-Made [] [] e h m = refl
  join-Made [] (c ∷ cs) e h m = absurd m
  join-Made (b ∷ bs) [] e h m = absurd m
  join-Made (b ∷ bs) (c ∷ cs) e h m = ground (
    arith,
    length-Made 0 (b ∷ bs) (c ∷ cs) m,
    check-Made 0 (b ∷ bs) (c ∷ cs) (omega arith) m,
    concat-Made 0 (b ∷ bs) (c ∷ cs) m,
  )

chunks-set : IsSet (List Chunk)
chunks-set = hlevel

-- Splitting never fails while the number of chunks fits a `u32`: it gives as many chunks as that
-- number, and from any rearrangement of them the input is reassembled.
pub reassemble-split :
    (hash : Bytes → Bytes) (clock : ℕ → ℕ) (input : Bytes) (chunk_size : ℕ) (parent : Option ℕ)
    → div_ceil (length input) (clamp_size chunk_size) < 2 ^ 32
    → (cs : List Chunk) × (split_into_chunks hash clock input chunk_size parent ≡ ok cs)
      × (length cs ≡ div_ceil (length input) (clamp_size chunk_size))
      × ((received : List Chunk) → Perm cs received → reassemble_chunks received ≡ ok input)
unfolding reassemble_chunks
reassemble-split hash clock input chunk_size parent small =
    let n = clamp_size chunk_size in
    let t = div_ceil (length input) n in
    let pieces = chunks n input in
    let pos : 0 < n = unfold clamp_size in omega arith in
    let count = length-chunks n input pos in
    let (cs, e, m) = split-Made hash clock input chunk_size parent small in
    (
      cs,
      e,
      length-Made hash t 0 pieces cs m ∙ count,
      λ received p.
          ap join_sorted (
            sort_by_of_perm index_of chunks-set received cs (Made-IsSortedBy hash t 0 pieces cs m)
              (Made-Nodup hash t 0 pieces cs m) p)
          ∙ join-Made hash t pieces cs count small m
          ∙ ap ok (concat-chunks n input pos),
    )

join_incomplete :
    (t n : ℕ) (cs : List Chunk)
    → length cs ≡ n
    → 0 < n
    → All (λ (c : Chunk). c.total_chunks ≡ t) cs
    → n ≢ t
    → join_sorted cs ≡ fail (insufficient_shards n t)
unfolding join_sorted
join_incomplete t n [] l p a h = absurd (omega arith)
join_incomplete t n (c ∷ cs) l p a h = ground arith

-- A non-empty set of chunks that state a total other than its own size is refused: none may be
-- missing, and none be there twice.
pub reassemble_incomplete :
    (t : ℕ) (cs : List Chunk)
    → cs ≢ []
    → All (λ (c : Chunk). c.total_chunks ≡ t) cs
    → length cs ≢ t
    → reassemble_chunks cs ≡ fail (insufficient_shards (length cs) t)
unfolding reassemble_chunks
reassemble_incomplete t cs ne a h =
    join_incomplete t (length cs) (sort_by (ascending index_of) cs)
      (length-sort_by (ascending index_of) cs) (ground arith)
      (All-sort_by (ascending index_of) (λ (c : Chunk). c.total_chunks ≡ t) cs a) h
