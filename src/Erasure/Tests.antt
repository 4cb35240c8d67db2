-- ===== src/Erasure/Tests.antt =====
-- A codec that meets the laws (one data shard, mirrored), and the theorems at it.
use cyxcloud.Prelude.{
  ℕ, zero, suc, ◌≤◌, ◌<◌, ◌≡◌, ◌↔◌, refl, Bool, true, false, ◌&&◌, Option, none, some, List, [],
  ◌∷◌, ◌==◌, arith, length, ◌≢◌, String, ap, ◌++◌, map, if◌then◌else◌,
}
use cyxcloud.Prelude.Slices.{HasShape, count_some}
use cyxcloud.Prelude.Results.{Result, ok, err}
use cyxcloud.Erasure.{
  ErasureEncoder, ErasureConfig, ShardData, encode, decode, new_config, verify_shards,
}
use cyxcloud.Erasure.Codec.{Bytes, ReedSolomon, IsLawful, Loses}
use cyxcloud.Erasure.RoundTrip.{decode-encode}
use cyxcloud.Erasure.Verification.{verify-encode}

same : Bytes → Bytes → Bool
same [] [] = true
same [] (y ∷ ys) = false
same (x ∷ xs) [] = false
same (x ∷ xs) (y ∷ ys) = x == y && same xs ys

same_refl : (xs : Bytes) → same xs xs ≡ true
unfolding same
same_refl [] = refl
same_refl (x ∷ xs) = ground (arith, same_refl xs)

mirror_encode : List Bytes → Result String (List Bytes)
mirror_encode (a ∷ b ∷ []) = ok (a ∷ a ∷ [])
mirror_encode _ = err "shards"

mirror_reconstruct : List (Option Bytes) → Result String (List (Option Bytes))
mirror_reconstruct (some a ∷ b ∷ []) = ok (some a ∷ some a ∷ [])
mirror_reconstruct (none ∷ some b ∷ []) = ok (some b ∷ some b ∷ [])
mirror_reconstruct _ = err "too few shards"

mirror_verify : List Bytes → Result String Bool
mirror_verify (a ∷ b ∷ []) = ok (same a b)
mirror_verify _ = err "shards"

mirror : ReedSolomon
unfolding mirror_encode mirror_reconstruct mirror_verify
mirror = record { encode = mirror_encode; reconstruct = mirror_reconstruct; verify = mirror_verify }

mirror_encodes :
    (n : ℕ) (xs ys : List Bytes)
    → HasShape 1 n xs
    → HasShape 1 n ys
    → (zs : List Bytes) × (mirror.encode (xs ++ ys) ≡ ok (xs ++ zs)) × HasShape 1 n zs
unfolding mirror
mirror_encodes n (x ∷ []) (y ∷ []) h k = (x ∷ [], refl, h)
mirror_encodes n [] ys h k = absurd h
mirror_encodes n (x ∷ x' ∷ xs) ys h k = absurd h.1
mirror_encodes n (x ∷ []) [] h k = absurd k
mirror_encodes n (x ∷ []) (y ∷ y' ∷ ys) h k = absurd k.1

restores :
    (x : Bytes) (os : List (Option Bytes))
    → Loses (x ∷ x ∷ []) os
    → 1 ≤ count_some os
    → mirror.reconstruct os ≡ ok (some x ∷ some x ∷ [])
unfolding mirror Loses count_some
restores x (none ∷ none ∷ []) l c = absurd (omega arith)
restores x (none ∷ some b ∷ []) l c = ground arith
restores x (some a ∷ none ∷ []) l c = ground arith
restores x (some a ∷ some b ∷ []) l c = ground arith
restores x [] l c = absurd l
restores x (none ∷ []) l c = absurd l
restores x (some a ∷ []) l c = absurd l.1
restores x (none ∷ none ∷ o ∷ os) l c = absurd l
restores x (none ∷ some b ∷ o ∷ os) l c = absurd l.1
restores x (some a ∷ none ∷ o ∷ os) l c = absurd l.1
restores x (some a ∷ some b ∷ o ∷ os) l c = absurd l.1.1

mirror_encoded :
    (n : ℕ) (xs ys enc : List Bytes)
    → HasShape 1 n xs
    → HasShape 1 n ys
    → mirror.encode (xs ++ ys) ≡ ok enc
    → (x : Bytes) × (enc ≡ x ∷ x ∷ [])
unfolding mirror
mirror_encoded n (x ∷ []) (y ∷ []) enc h k e = (x, ground arith)
mirror_encoded n [] ys enc h k e = absurd h
mirror_encoded n (x ∷ x' ∷ xs) ys enc h k e = absurd h.1
mirror_encoded n (x ∷ []) [] enc h k e = absurd k
mirror_encoded n (x ∷ []) (y ∷ y' ∷ ys) enc h k e = absurd k.1

mirror_reconstructs :
    (n : ℕ) (xs ys enc : List Bytes) (left : List (Option Bytes))
    → HasShape 1 n xs
    → HasShape 1 n ys
    → mirror.encode (xs ++ ys) ≡ ok enc
    → Loses enc left
    → 1 ≤ count_some left
    → mirror.reconstruct left ≡ ok (map some enc)
mirror_reconstructs n xs ys enc left h k e l c =
    let (x, q) = mirror_encoded n xs ys enc h k e in rw q (restores x left (rw q at l) c)

mirror_verifies :
    (n : ℕ) (xs ys enc : List Bytes)
    → HasShape 1 n xs
    → HasShape 1 n ys
    → mirror.encode (xs ++ ys) ≡ ok enc
    → mirror.verify enc ≡ ok true
unfolding mirror
mirror_verifies n xs ys enc h k e =
    let (x, q) = mirror_encoded n xs ys enc h k e in rw q (ap ok (same_refl x))

mirror-IsLawful : IsLawful mirror 1 1
mirror-IsLawful = record {
  some_data = omega arith;
  some_parity = omega arith;
  in_field = omega arith;
  encodes = λ n xs ys p. mirror_encodes n xs ys;
  reconstructs = λ n xs ys enc left p. mirror_reconstructs n xs ys enc left;
  verifies = λ n xs ys enc p. mirror_verifies n xs ys enc;
}

abbrev mirrored : ErasureEncoder
mirrored = record { config = record { data_shards = 1; parity_shards = 1 }; encoder = mirror }

abbrev shard : ℕ → Bool → ShardData
shard i p = record { index = i; bytes = 7 ∷ 8 ∷ 9 ∷ []; is_parity = p }

encode_run : encode mirrored (7 ∷ 8 ∷ 9 ∷ []) ≡ ok (shard 0 false ∷ shard 1 true ∷ [])
unfolding encode mirror cyxcloud.Erasure.blank_shards cyxcloud.Erasure.number_shards
    cyxcloud.Erasure.calculate_shard_size cyxcloud.Prelude.Slices.chunks
    cyxcloud.Prelude.Slices.resize
encode_run = refl

decode-encode_example :
    (shards : List ShardData) × (encode mirrored (7 ∷ 8 ∷ 9 ∷ []) ≡ ok shards)
    × (length shards ≡ 2)
    × ((left : List (Option ShardData))
        → Loses shards left
        → 1 ≤ count_some left
        → decode mirrored left 3 ≡ ok (7 ∷ 8 ∷ 9 ∷ []))
decode-encode_example = decode-encode mirrored (7 ∷ 8 ∷ 9 ∷ []) mirror-IsLawful (λ e. ground arith)

verify-encode_example :
    (shards : List ShardData) × (encode mirrored (7 ∷ 8 ∷ []) ≡ ok shards)
    × (verify_shards mirrored shards ≡ ok true)
verify-encode_example = verify-encode mirrored (7 ∷ 8 ∷ []) mirror-IsLawful (λ e. ground arith)
