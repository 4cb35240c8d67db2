-- ===== src/Erasure/Verification.antt =====
-- The consistency check of a full set of shards.
use cyxcloud.Prelude.{
  ℕ, zero, suc, ◌+◌, ◌*◌, ◌<◌, ◌≡◌, ◌≢◌, refl, ap, ◌∙◌, true, List, [], ◌∷◌, ◌++◌, map, arith,
  length, replicate,
}
use cyxcloud.Prelude.Slices.{
  HasShape, chunks, resize, div_ceil, length_of_HasShape, replicate-HasShape,
}
use cyxcloud.Prelude.Results.{ok}
use cyxcloud.Erasure.{
  ErasureEncoder, ShardData, encode, verify_shards, number_shards, total_shards, same_sizes,
  expected_size, blank_shards, calculate_shard_size,
}
use cyxcloud.Erasure.Codec.{Bytes, IsLawful}
use cyxcloud.Erasure.Padding.{div_ceil_pos, pieces-HasShape}
use cyxcloud.Erasure.RoundTrip.{length-number_shards, encode_steps}

HasShape-append :
    {A : Type 0} (d p n : ℕ) (xs ys : List (List A))
    → HasShape d n xs
    → HasShape p n ys
    → HasShape (d + p) n (xs ++ ys)
HasShape-append zero p n [] ys h k = let e : zero + p ≡ p = omega arith in rw e k
HasShape-append zero p n (x ∷ xs) ys h k = absurd h
HasShape-append (suc d) p n [] ys h k = absurd h
HasShape-append (suc d) p n (x ∷ xs) ys h k =
    let e : suc d + p ≡ suc (d + p) = omega arith in rw e (h.0, HasShape-append d p n xs ys h.1 k)

same_sizes_lem :
    (k n d i : ℕ) (bs : List Bytes) → HasShape k n bs → same_sizes n (number_shards d i bs) ≡ true
unfolding same_sizes number_shards
same_sizes_lem zero n d i [] h = refl
same_sizes_lem zero n d i (b ∷ bs) h = absurd h
same_sizes_lem (suc k) n d i [] h = absurd h
same_sizes_lem (suc k) n d i (b ∷ bs) h = ground (arith, same_sizes_lem k n d (i + 1) bs h.1)

expected_size_lem :
    (k n d i : ℕ) (bs : List Bytes)
    → 0 < k
    → HasShape k n bs
    → expected_size (number_shards d i bs) ≡ n
unfolding expected_size number_shards
expected_size_lem zero n d i bs p h = absurd (omega arith)
expected_size_lem (suc k) n d i [] p h = absurd h
expected_size_lem (suc k) n d i (b ∷ bs) p h = h.0

bytes-number_shards :
    (d i : ℕ) (bs : List Bytes) → map (λ (s : ShardData). s.bytes) (number_shards d i bs) ≡ bs
unfolding number_shards
bytes-number_shards d i [] = refl
bytes-number_shards d i (b ∷ bs) = ap (◌∷◌ b) (bytes-number_shards d (i + 1) bs)

verify_steps :
    (e : ErasureEncoder) (shards : List ShardData)
    → length shards ≡ total_shards e.config
    → same_sizes (expected_size shards) shards ≡ true
    → e.encoder.verify (map (λ s. s.bytes) shards) ≡ ok true
    → verify_shards e shards ≡ ok true
unfolding verify_shards
verify_steps e shards l s v = ground arith

-- With a codec that does what its documentation says, whatever shards `encode` gives for a non-empty
-- input pass `verify_shards`.
pub verify-encode :
    (e : ErasureEncoder) (input : Bytes)
    → IsLawful e.encoder e.config.data_shards e.config.parity_shards
    → input ≢ []
    → (shards : List ShardData) × (encode e input ≡ ok shards) × (verify_shards e shards ≡ ok true)
unfolding blank_shards calculate_shard_size
verify-encode e input law ne =
    let d = e.config.data_shards in
    let p = e.config.parity_shards in
    let n = div_ceil (length input) d in
    let some_input : 0 < length input = ground arith in
    let pos = div_ceil_pos (length input) d law.some_data some_input in
    let pieces = chunks n (resize (n * d) 0 input) in
    let hd = pieces-HasShape d n input pos in
    let hp = replicate-HasShape p n 0 in
    let (parity', enc, hp') = law.encodes n pieces (replicate p (replicate n 0)) pos hd hp in
    let all = pieces ++ parity' in
    let shape = HasShape-append d p n pieces parity' hd hp' in
    (
      number_shards d 0 all,
      encode_steps e input all pos enc,
      verify_steps e (number_shards d 0 all)
          (length-number_shards d 0 all ∙ length_of_HasShape (d + p) n all shape)
          (rw (expected_size_lem (d + p) n d 0 all (omega (arith, law.some_data)) shape)
            (same_sizes_lem (d + p) n d 0 all shape))
          (rw (bytes-number_shards d 0 all)
            (law.verifies n pieces (replicate p (replicate n 0)) all pos hd hp enc)),
    )
