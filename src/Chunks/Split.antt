-- ===== src/Chunks/Split.antt =====
-- What `split_into_chunks` makes: numbered chunks with the pieces as their contents.
use cyxcloud.Prelude.{
  ℕ, ◌+◌, ◌^◌, ◌≤◌, ◌<◌, ◌≡◌, refl, Option, none, some, List, [], ◌∷◌, arith, length, min, max, All,
  All-imp,
}
use cyxcloud.Prelude.Slices.{chunks, div_ceil, chunks-le, length-chunks}
use cyxcloud.Prelude.Results.{ok}
use cyxcloud.Chunks.{
  Bytes, Chunk, make_chunks, split_into_chunks, clamp_size, max_chunk_size, min_chunk_size, as_u32,
  new_chunk, with_parent, new_metadata,
}

module _ (hash : Bytes → Bytes) where
  -- The chunks are those of the pieces, numbered from `i`, `t` in all, each named by its content.
  abbrev pub Made : ℕ → ℕ → List Bytes → List Chunk → Type 0
  Made t i [] [] = Unit
  Made t i [] (c ∷ cs) = ⊥
  Made t i (b ∷ bs) [] = ⊥
  Made t i (b ∷ bs) (c ∷ cs) =
      (c.index ≡ i)
      × (c.total_chunks ≡ t)
      × (c.bytes ≡ b)
      × (c.id ≡ hash b)
      × (c.size ≡ length b)
      × Made t (i + 1) bs cs

  new_chunk_lem :
      (clock : ℕ → ℕ) (parent : Option ℕ) (t : ℕ)
      → t < 2 ^ 32
      → (i : ℕ) (b : Bytes) → i < t
      → length b ≤ max_chunk_size
      → (c : Chunk) × (new_chunk hash (clock i) b (as_u32 i) (as_u32 t) ≡ ok c)
        × (let k = with_parent parent c in
            ((k.index ≡ i)
              × (k.total_chunks ≡ t)
              × (k.bytes ≡ b)
              × (k.id ≡ hash b)
              × (k.size ≡ length b)))
  unfolding new_chunk with_parent
  new_chunk_lem clock parent t small i b h l = (fresh, ground arith, fields parent)
    where
      fresh : Chunk
      fresh = record {
        metadata = new_metadata (clock i) (hash b) (length b) (as_u32 i) (as_u32 t);
        bytes = b;
      }

      fields :
          (p : Option ℕ)
          → let k = with_parent p fresh in
            ((k.index ≡ i)
              × (k.total_chunks ≡ t)
              × (k.bytes ≡ b)
              × (k.id ≡ hash b)
              × (k.size ≡ length b))
      fields none = (omega arith, omega arith, refl, refl, refl)
      fields (some pid) = (omega arith, omega arith, refl, refl, refl)

  module _ (clock : ℕ → ℕ) (parent : Option ℕ) (t : ℕ) (small : t < 2 ^ 32) where
    make_chunks-Made :
        (i : ℕ) (bs : List Bytes)
        → i + length bs ≤ t
        → All (λ b. length b ≤ max_chunk_size) bs
        → (cs : List Chunk) × (make_chunks hash clock parent t i bs ≡ ok cs) × Made t i bs cs
    unfolding make_chunks
    make_chunks-Made i [] h a = ([], refl, tt)
    make_chunks-Made i (b ∷ bs) h a =
        let (c, e, m) = new_chunk_lem clock parent t small i b (omega arith) a.0 in
        let (cs, es, ms) = make_chunks-Made (i + 1) bs (omega arith) a.1 in
        (with_parent parent c ∷ cs, rw (e, es), (m.0, m.1, m.2, m.3, m.4, ms))

  pub split-Made :
      (clock : ℕ → ℕ) (input : Bytes) (chunk_size : ℕ) (parent : Option ℕ)
      → div_ceil (length input) (clamp_size chunk_size) < 2 ^ 32
      → (cs : List Chunk) × (split_into_chunks hash clock input chunk_size parent ≡ ok cs)
        × Made
            (div_ceil (length input) (clamp_size chunk_size))
            0
            (chunks (clamp_size chunk_size) input)
            cs
  unfolding split_into_chunks clamp_size
  split-Made clock input chunk_size parent small =
      let n = max min_chunk_size (min chunk_size max_chunk_size) in
      make_chunks-Made clock parent (div_ceil (length input) n) small 0 (chunks n input)
        (omega (arith, length-chunks n input (omega arith)))
        (All-imp (λ b h. omega arith) (chunks n input) (chunks-le n input (omega arith)))
