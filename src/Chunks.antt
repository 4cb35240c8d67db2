-- ===== src/Chunks.antt =====
-- cyxcloud-core/src/chunk.rs. The Blake3 hash (crypto.rs calls the crate) is a parameter; the wall
-- clock's reading when the chunk of an index is made is another.
pub mod Split
pub mod Reassembly
mod Tests
use mathlib.Core.Bool.{decide}
use cyxcloud.Prelude.{
  ℕ, zero, suc, ◌+◌, ◌-◌, ◌*◌, ◌%◌, ◌^◌, Bool, true, false, Option, none, some, List, [], ◌∷◌, ◌++◌,
  map, ltb, leb, not, ◌==◌, if◌then◌else◌, length, min, max,
}
use cyxcloud.Prelude.Slices.{chunks, concat, div_ceil}
use cyxcloud.Prelude.Sorting.{sort_by, ascending}
use cyxcloud.Prelude.Results.{Result, ok, err, guard, ◌>>=◌, ◌>>◌}
use cyxcloud.Error.{
  CyxCloudError, chunk_too_large, insufficient_shards, invalid_shard_index, Outcome, fail, returns,
}

abbrev pub Bytes : Type 0
Bytes = List ℕ

abbrev pub min_chunk_size : ℕ
min_chunk_size = 256 * 1024

abbrev pub max_chunk_size : ℕ
max_chunk_size = 64 * 1024 * 1024

abbrev pub as_u32 : ℕ → ℕ
as_u32 n = n % 2 ^ 32

-- The identifier is the hash's 32 bytes.
pub record ChunkMetadata : Type 0 where
  pub id : Bytes
  pub size : ℕ  -- u64
  pub index : ℕ  -- u32
  pub total_chunks : ℕ  -- u32
  pub parent_id : Option ℕ
  pub created_at : ℕ
  pub encrypted : Bool
  pub shard_index : Option ℕ

pub record Chunk : Type 0 where
  pub metadata : ChunkMetadata
  pub open metadata use *
  pub bytes : Bytes

-- `ChunkMetadata::new`
abbrev pub new_metadata : ℕ → Bytes → ℕ → ℕ → ℕ → ChunkMetadata
new_metadata now id size index total_chunks = record {
  id = id;
  size = size;
  index = index;
  total_chunks = total_chunks;
  parent_id = none;
  created_at = now;
  encrypted = false;
  shard_index = none;
}

-- `chunk_size.clamp(MIN_CHUNK_SIZE, MAX_CHUNK_SIZE)`
unfoldable pub clamp_size : ℕ → ℕ
clamp_size n = max min_chunk_size (min n max_chunk_size)

unfoldable pub with_parent : Option ℕ → Chunk → Chunk
with_parent none c = c
with_parent (some pid) c = record {
  metadata = record c.metadata { parent_id = some pid };
  bytes = c.bytes;
}

module _ (hash : Bytes → Bytes) where
  -- `ChunkId::from_data`
  abbrev pub from_data : Bytes → Bytes
  from_data input = hash input

  -- `Chunk::new`
  unfoldable pub new_chunk : ℕ → Bytes → ℕ → ℕ → Outcome Chunk
  new_chunk now input index total_chunks =
      if ltb max_chunk_size (length input)
      then fail (chunk_too_large (length input) max_chunk_size)
      else ok (record {
        metadata = new_metadata now (from_data input) (length input) index total_chunks;
        bytes = input;
      })

  -- The `map` over the enumerated pieces, collected into a `Result`.
  unfoldable pub make_chunks : (ℕ → ℕ) → Option ℕ → ℕ → ℕ → List Bytes → Outcome (List Chunk)
  unfolding new_chunk with_parent
  make_chunks clock parent total i [] = ok []
  make_chunks clock parent total i (b ∷ bs) = do
    c ← new_chunk (clock i) b (as_u32 i) (as_u32 total)
    cs ← make_chunks clock parent total (i + 1) bs
    ok (with_parent parent c ∷ cs)

  unfoldable pub split_into_chunks : (ℕ → ℕ) → Bytes → ℕ → Option ℕ → Outcome (List Chunk)
  unfolding clamp_size make_chunks
  split_into_chunks clock input chunk_size parent =
      let size = clamp_size chunk_size in
      make_chunks clock parent (div_ceil (length input) size) 0 (chunks size input)

-- The loop that verifies that the indices are 0, 1, 2 and so on.
unfoldable pub check_indices : ℕ → ℕ → List Chunk → Outcome (Unit {0})
check_indices expected i [] = ok tt
check_indices expected i (c ∷ cs) =
    let rest = check_indices expected (i + 1) cs in
    if c.index == as_u32 i then rest else fail (invalid_shard_index c.index (expected - 1))

unfoldable pub join_sorted : List Chunk → Outcome Bytes
join_sorted [] = ok []
join_sorted (c ∷ cs) = do
  let expected_total = c.total_chunks
  guard (length (c ∷ cs) == expected_total)
      (returns (insufficient_shards (length (c ∷ cs)) expected_total))
  check_indices expected_total 0 (c ∷ cs)
  ok (concat (map (λ (k : Chunk). k.bytes) (c ∷ cs)))

unfoldable pub reassemble_chunks : List Chunk → Outcome Bytes
unfolding join_sorted
reassemble_chunks cs = join_sorted (sort_by (ascending (λ (c : Chunk). c.index)) cs)
