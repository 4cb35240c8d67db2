-- ===== src/Chunks/Tests.antt =====
-- Splitting and reassembling at concrete inputs, with a hash that keeps the first bytes.
use mathlib.Core.List.{Perm}
use cyxcloud.Prelude.{
  ℕ, ◌+◌, ◌^◌, ◌<◌, ◌≡◌, ◌≢◌, refl, false, Option, none, List, [], ◌∷◌, arith, length, take, All,
}
use cyxcloud.Prelude.Slices.{div_ceil}
use cyxcloud.Prelude.Results.{ok}
use cyxcloud.Chunks.{Bytes, Chunk, split_into_chunks, clamp_size, reassemble_chunks, new_metadata}
use cyxcloud.Chunks.Reassembly.{reassemble-split}

abbrev hash : Bytes → Bytes
hash b = take 32 b

abbrev part : ℕ → Bytes → Chunk
part i b = record { metadata = new_metadata 0 (hash b) (length b) i 2; bytes = b }

-- The clamp keeps pieces of 256 KB, so a short input is one chunk.
reassemble-split_example :
    (cs : List Chunk) × (split_into_chunks hash (λ i. i) (1 ∷ 2 ∷ 3 ∷ []) 1 none ≡ ok cs)
    × (length cs ≡ 1)
    × ((received : List Chunk)
        → Perm cs received
        → reassemble_chunks received ≡ ok (1 ∷ 2 ∷ 3 ∷ []))
unfolding clamp_size
reassemble-split_example =
    reassemble-split hash (λ i. i) (1 ∷ 2 ∷ 3 ∷ []) 1 none (unfold clamp_size in omega arith)

reassemble_swapped :
    reassemble_chunks (part 1 (4 ∷ []) ∷ part 0 (5 ∷ 6 ∷ []) ∷ []) ≡ ok (5 ∷ 6 ∷ 4 ∷ [])
unfolding reassemble_chunks cyxcloud.Chunks.check_indices cyxcloud.Prelude.Sorting.sort_by
    cyxcloud.Prelude.Slices.concat
reassemble_swapped = refl
