-- ===== src/Memory.antt =====
-- cyxcloud-storage/src/memory.rs, with the trait and the statistics of cyxcloud-storage/src/backend.rs.
-- Counters are `AtomicU64`, whose `fetch_add` and `fetch_sub` wrap. `put` looks at the counter before it
-- takes the lock and stores under the lock: the two halves are functions of their own.
pub mod Accounting
pub mod Contents
pub mod Capacity
mod Tests
use cyxcloud.Prelude.{
  ℕ, ◌+◌, ◌-◌, ◌%◌, ◌^◌, Bool, true, false, not, ◌&&◌, Option, none, some, List, [], ◌∷◌, map, ltb,
  leb, if◌then◌else◌, length, Key,
}
use cyxcloud.Prelude.Assoc.{Map, get as lookup, insert, remove}
use cyxcloud.Prelude.Results.{Result, ok, err}
use cyxcloud.Error.{CyxCloudError, storage_full}

-- Two atomic operations on u64.
abbrev pub fetch_add : ℕ → ℕ → ℕ
fetch_add counter n = (counter + n) % 2 ^ 64

abbrev pub fetch_sub : ℕ → ℕ → ℕ
fetch_sub counter n = (counter + (2 ^ 64 - n % 2 ^ 64)) % 2 ^ 64

pub record StorageStats : Type 0 where
  pub chunk_count : ℕ
  pub bytes_used : ℕ
  pub bytes_capacity : ℕ
  pub reads : ℕ
  pub writes : ℕ
  pub deletes : ℕ
  pub avg_read_latency_us : ℕ
  pub avg_write_latency_us : ℕ

unfoldable pub is_full : StorageStats → Bool
is_full s = ltb 0 s.bytes_capacity && leb s.bytes_capacity s.bytes_used

unfoldable pub bytes_available : StorageStats → ℕ
bytes_available s = if ltb 0 s.bytes_capacity then s.bytes_capacity - s.bytes_used else 2 ^ 64 - 1

-- `K` is the identifier of a chunk, `B` a byte.
pub record MemoryBackend (K B : Type 0) : Type 0 where
  pub chunks : Map K (List B)
  pub max_capacity : ℕ
  pub bytes_used : ℕ
  pub reads : ℕ
  pub writes : ℕ
  pub deletes : ℕ

-- `new` is `with_capacity 0`.
unfoldable pub with_capacity : {K B : Type 0} → ℕ → MemoryBackend K B
with_capacity max_bytes = record {
  chunks = [];
  max_capacity = max_bytes;
  bytes_used = 0;
  reads = 0;
  writes = 0;
  deletes = 0;
}

-- The old size that `put` and `delete` take off, where there is a chunk.
abbrev pub without_old : {B : Type 0} → Option (List B) → ℕ → ℕ
without_old none used = used
without_old (some old) used = fetch_sub used (length old)

abbrev pub is_some : {A : Type 0} → Option A → Bool
is_some none = false
is_some (some a) = true

module _ {K B : Type 0} where
  unfoldable pub clear : MemoryBackend K B → MemoryBackend K B
  clear m = record m { chunks = []; bytes_used = 0 }

  unfoldable pub has_room : List B → MemoryBackend K B → Bool
  has_room bytes m =
      not (ltb 0 m.max_capacity && ltb m.max_capacity (fetch_add m.bytes_used (length bytes)))

  unfoldable pub stats : MemoryBackend K B → StorageStats
  stats m = record {
    chunk_count = length m.chunks;
    bytes_used = m.bytes_used;
    bytes_capacity = m.max_capacity;
    reads = m.reads;
    writes = m.writes;
    deletes = m.deletes;
    avg_read_latency_us = 0;
    avg_write_latency_us = 0;
  }

  unfoldable pub list_chunks : MemoryBackend K B → List K
  list_chunks m = map (λ c. c.0) m.chunks

  module _ ⦃e : Key K⦄ where
    -- The part of `put` under the lock.
    unfoldable pub store : K → List B → MemoryBackend K B → MemoryBackend K B
    store id bytes m = record m {
      chunks = insert id bytes m.chunks;
      bytes_used = fetch_add (without_old (lookup id m.chunks) m.bytes_used) (length bytes);
      writes = fetch_add m.writes 1;
    }

    unfoldable pub put :
        K → List B → MemoryBackend K B → MemoryBackend K B × Result CyxCloudError (Unit {0})
    put id bytes m =
        if has_room bytes m
        then (store id bytes m, ok tt)
        else (m, err (storage_full m.bytes_used m.max_capacity))

    unfoldable pub get : K → MemoryBackend K B → MemoryBackend K B × Option (List B)
    get id m = (record m { reads = fetch_add m.reads 1 }, lookup id m.chunks)

    -- What `remove` gives, and what `delete` does with it.
    abbrev pub delete_found : K → Option (List B) → MemoryBackend K B → MemoryBackend K B × Bool
    delete_found id (some old) m = (
      record m {
        chunks = remove id m.chunks;
        bytes_used = fetch_sub m.bytes_used (length old);
        deletes = fetch_add m.deletes 1;
      },
      true,
    )
    delete_found id none m = (m, false)

    unfoldable pub delete : K → MemoryBackend K B → MemoryBackend K B × Bool
    delete id m = delete_found id (lookup id m.chunks) m

    unfoldable pub exists : K → MemoryBackend K B → Bool
    exists id m = is_some (lookup id m.chunks)

-- What the threads that share one backend do under its lock, in the order in which they take it. A
-- `stores` is the second half of a `put` whose test passed at some earlier time.
pub data Event (K B : Type 0) : Type 0 where
  stores : K → List B → Event K B
  reads_one deletes_one : K → Event K B
  clears : Event K B

module _ {K B : Type 0} ⦃e : Key K⦄ where
  unfoldable pub step : MemoryBackend K B → Event K B → MemoryBackend K B
  step m (stores id bytes) = store id bytes m
  step m (reads_one id) = (get id m).0
  step m (deletes_one id) = (delete id m).0
  step m clears = clear m

  unfoldable pub run : MemoryBackend K B → List (Event K B) → MemoryBackend K B
  unfolding step
  run m [] = m
  run m (e ∷ es) = run (step m e) es
