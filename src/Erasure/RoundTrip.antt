-- ===== src/Erasure/RoundTrip.antt =====
-- Decoding what was encoded, after losses.
use mathlib.Core.List.{map-append}
use cyxcloud.Prelude.{
  ℕ, suc, ◌+◌, ◌*◌, ◌≤◌, ◌<◌, ◌≡◌, ◌≢◌, refl, ap, ◌∙◌, Option, none, some, List, [], ◌∷◌, ◌++◌, map,
  arith, length, take, replicate, length-append, length-map,
}
use cyxcloud.Prelude.Slices.{
  HasShape, chunks, resize, concat, div_ceil, count_some, length_of_HasShape, replicate-HasShape,
  take-append_lem,
}
use cyxcloud.Prelude.Results.{ok}
use cyxcloud.Erasure.{
  ErasureEncoder, ShardData, encode, decode, blank_shards, number_shards, gather, bytes_of,
  first_size, calculate_shard_size, total_shards, shard_size_of,
}
use cyxcloud.Erasure.Codec.{Bytes, IsLawful, Loses}
use cyxcloud.Erasure.Padding.{le-div_ceil, div_ceil_pos, pieces-HasShape, concat-pieces}

pub length-number_shards : (d i : ℕ) (bs : List Bytes) → length (number_shards d i bs) ≡ length bs
unfolding number_shards
length-number_shards d i [] = refl
length-number_shards d i (b ∷ bs) = ap suc (length-number_shards d (i + 1) bs)

length-Loses :
    {A : Type 0} (xs : List A) (os : List (Option A)) → Loses xs os → length os ≡ length xs
unfolding Loses
length-Loses [] [] h = refl
length-Loses [] (o ∷ os) h = absurd h
length-Loses (x ∷ xs) [] h = absurd h
length-Loses (x ∷ xs) (none ∷ os) h = ap suc (length-Loses xs os h)
length-Loses (x ∷ xs) (some y ∷ os) h = ap suc (length-Loses xs os h.1)

-- Losing numbered shards is losing their contents.
Loses-bytes :
    (d i : ℕ) (bs : List Bytes) (os : List (Option ShardData))
    → Loses (number_shards d i bs) os
    → Loses bs (map bytes_of os)
unfolding Loses number_shards
Loses-bytes d i [] [] h = tt
Loses-bytes d i [] (o ∷ os) h = absurd h
Loses-bytes d i (b ∷ bs) [] h = absurd h
Loses-bytes d i (b ∷ bs) (none ∷ os) h = Loses-bytes d (i + 1) bs os h
Loses-bytes d i (b ∷ bs) (some s ∷ os) h =
    (ap (λ (x : ShardData). x.bytes) h.0, Loses-bytes d (i + 1) bs os h.1)

count_some-bytes : (os : List (Option ShardData)) → count_some (map bytes_of os) ≡ count_some os
unfolding count_some
count_some-bytes [] = refl
count_some-bytes (none ∷ os) = count_some-bytes os
count_some-bytes (some s ∷ os) = ap suc (count_some-bytes os)

first_size-some :
    (os : List (Option ShardData)) → 0 < count_some os → (n : ℕ) × (first_size os ≡ some n)
unfolding count_some first_size
first_size-some [] h = absurd (omega arith)
first_size-some (none ∷ os) h = first_size-some os h
first_size-some (some s ∷ os) h = (shard_size_of s, refl)

gather-map : (bs : List Bytes) → gather (map some bs) ≡ ok (concat bs)
unfolding gather concat
gather-map [] = refl
gather-map (b ∷ bs) = rw (gather-map bs)

-- `decode` when each of its steps succeeds.
decode_steps :
    (e : ErasureEncoder) (os : List (Option ShardData)) (size m : ℕ) (vecs : List (Option Bytes))
    (r : Bytes)
    → length os ≡ total_shards e.config
    → e.config.data_shards ≤ count_some os
    → first_size os ≡ some m
    → e.encoder.reconstruct (map bytes_of os) ≡ ok vecs
    → gather (take e.config.data_shards vecs) ≡ ok r
    → decode e os size ≡ ok (take size r)
unfolding decode
decode_steps e os size m vecs r l c f v g = ground arith

take-some :
    (d n : ℕ) (pieces parity : List Bytes)
    → HasShape d n pieces
    → take d (map some (pieces ++ parity)) ≡ map some pieces
take-some d n pieces parity h = rw (map-append some pieces parity) (
    take-append_lem d (map some pieces) (map some parity)
      (length-map pieces some ∙ length_of_HasShape d n pieces h))

-- `decode` on shards that lost some of what the crate encoded.
decode_of_Loses :
    (e : ErasureEncoder) (n : ℕ) (pieces parity parity' : List Bytes) (os : List (Option ShardData))
    → IsLawful e.encoder e.config.data_shards e.config.parity_shards
    → 0 < n
    → HasShape e.config.data_shards n pieces
    → HasShape e.config.parity_shards n parity
    → HasShape e.config.parity_shards n parity'
    → e.encoder.encode (pieces ++ parity) ≡ ok (pieces ++ parity')
    → Loses (number_shards e.config.data_shards 0 (pieces ++ parity')) os
    → e.config.data_shards ≤ count_some os
    → (size : ℕ) → decode e os size ≡ ok (take size (concat pieces))
decode_of_Loses e n pieces parity parity' os law pos hd hp hp' enc lost enough size =
    let d = e.config.data_shards in
    let p = e.config.parity_shards in
    let (m, first) = first_size-some os (omega (arith, law.some_data)) in
    decode_steps e os size m (map some (pieces ++ parity')) (concat pieces)
      (omega (
        arith,
        length-Loses (number_shards d 0 (pieces ++ parity')) os lost,
        length-number_shards d 0 (pieces ++ parity'),
        length-append pieces parity',
        length_of_HasShape d n pieces hd,
        length_of_HasShape p n parity' hp',
      ))
      enough first
      (law.reconstructs n pieces parity (pieces ++ parity') (map bytes_of os) pos hd hp enc
        (Loses-bytes d 0 (pieces ++ parity') os lost) (rw (count_some-bytes os) enough))
      (rw (take-some d n pieces parity' hd) (gather-map pieces))

pub encode_steps :
    (e : ErasureEncoder) (input : Bytes) (shards : List Bytes)
    → 0 < calculate_shard_size e (length input)
    → e.encoder.encode (blank_shards e (calculate_shard_size e (length input)) input) ≡ ok shards
    → encode e input ≡ ok (number_shards e.config.data_shards 0 shards)
unfolding encode
encode_steps e input shards p h = ground arith

-- With a codec that does what its documentation says, every non-empty input is encoded, into as many
-- shards as the configuration states, and any selection of these that still holds `data_shards` of
-- them is decoded to the input.
pub decode-encode :
    (e : ErasureEncoder) (input : Bytes)
    → IsLawful e.encoder e.config.data_shards e.config.parity_shards
    → input ≢ []
    → (shards : List ShardData) × (encode e input ≡ ok shards)
      × (length shards ≡ total_shards e.config)
      × ((left : List (Option ShardData))
          → Loses shards left
          → e.config.data_shards ≤ count_some left
          → decode e left (length input) ≡ ok input)
unfolding blank_shards calculate_shard_size
decode-encode e input law ne =
    let d = e.config.data_shards in
    let p = e.config.parity_shards in
    let n = div_ceil (length input) d in
    let some_input : 0 < length input = ground arith in
    let pos = div_ceil_pos (length input) d law.some_data some_input in
    let pieces = chunks n (resize (n * d) 0 input) in
    let hd = pieces-HasShape d n input pos in
    let hp = replicate-HasShape p n 0 in
    let (parity', enc, hp') = law.encodes n pieces (replicate p (replicate n 0)) pos hd hp in
    (
      number_shards d 0 (pieces ++ parity'),
      encode_steps e input (pieces ++ parity') pos enc,
      omega (
        arith,
        length-number_shards d 0 (pieces ++ parity'),
        length-append pieces parity',
        length_of_HasShape d n pieces hd,
        length_of_HasShape p n parity' hp',
      ),
      λ left lost enough.
          decode_of_Loses e n pieces (replicate p (replicate n 0)) parity' left law pos hd hp hp'
            enc lost enough (length input)
          ∙ ap ok (concat-pieces d n input pos (le-div_ceil (length input) d law.some_data)),
    )
