-- ===== src/Erasure.antt =====
-- cyxcloud-core/src/erasure.rs. Bytes are numbers; the Reed-Solomon crate is a parameter.
pub mod Codec
pub mod Padding
pub mod Errors
pub mod RoundTrip
pub mod Verification
mod Tests
use cyxcloud.Prelude.{
  ℕ, zero, suc, ◌+◌, ◌*◌, ◌%◌, Bool, true, false, Option, none, some, List, [], ◌∷◌, ◌++◌, map, ltb,
  leb, not, ◌==◌, if◌then◌else◌, length, take, replicate, String,
}
use cyxcloud.Prelude.Slices.{chunks, resize, concat, div_ceil, count_some}
use cyxcloud.Prelude.Results.{Result, ok, err, guard, ok_or, ◌>>=◌, ◌>>◌}
use cyxcloud.Error.{
  CyxCloudError, configuration, insufficient_shards, shard_size_mismatch, internal, Outcome, panics,
  fail, from_erasure, returns,
}
use Codec.{Bytes, ReedSolomon}

abbrev pub default_data_shards : ℕ
default_data_shards = 10

abbrev pub default_parity_shards : ℕ
default_parity_shards = 4

pub record ErasureConfig : Type 0 where
  pub data_shards : ℕ
  pub parity_shards : ℕ

-- `ErasureConfig::new`
unfoldable pub new_config : ℕ → ℕ → Outcome ErasureConfig
new_config data_shards parity_shards =
    if data_shards == 0
    then fail (configuration "data_shards must be > 0")
    else if parity_shards == 0
    then fail (configuration "parity_shards must be > 0")
    else ok (record { data_shards = data_shards; parity_shards = parity_shards })

abbrev pub total_shards : ErasureConfig → ℕ
total_shards c = c.data_shards + c.parity_shards

abbrev pub max_failures : ErasureConfig → ℕ
max_failures c = c.parity_shards

pub record ShardData : Type 0 where
  pub index : ℕ  -- u8
  pub bytes : Bytes
  pub is_parity : Bool

abbrev pub shard_size_of : ShardData → ℕ
shard_size_of s = length s.bytes

pub record ErasureEncoder : Type 0 where
  pub config : ErasureConfig
  pub encoder : ReedSolomon

-- `ErasureEncoder::with_config`, over the crate's `ReedSolomon::new`
unfoldable pub with_config :
    (ℕ → ℕ → Result String ReedSolomon) → ErasureConfig → Outcome ErasureEncoder
with_config rs_new c = do
  encoder ← from_erasure (rs_new c.data_shards c.parity_shards)
  ok (record { config = c; encoder = encoder })

unfoldable pub calculate_shard_size : ErasureEncoder → ℕ → ℕ
calculate_shard_size e data_size = div_ceil data_size e.config.data_shards

-- `enumerate` from index `i`, with `i as u8` and the parity flag.
unfoldable pub number_shards : ℕ → ℕ → List Bytes → List ShardData
number_shards data_shards i [] = []
number_shards data_shards i (b ∷ bs) =
    record { index = i % 256; bytes = b; is_parity = leb data_shards i }
    ∷ number_shards data_shards (i + 1) bs

-- The shards before the crate fills in the parity: the padded data in pieces, then zeros.
unfoldable pub blank_shards : ErasureEncoder → ℕ → Bytes → List Bytes
blank_shards e shard_size input =
    chunks shard_size (resize (shard_size * e.config.data_shards) 0 input)
    ++ replicate e.config.parity_shards (replicate shard_size 0)

-- `<[u8]>::chunks` panics at size 0.
unfoldable pub encode : ErasureEncoder → Bytes → Outcome (List ShardData)
encode e input = do
  let shard_size = calculate_shard_size e (length input)
  guard (not (shard_size == 0)) panics
  shards ← from_erasure (e.encoder.encode (blank_shards e shard_size input))
  ok (number_shards e.config.data_shards 0 shards)

-- `find_map(|s| s.as_ref().map(|s| s.size()))`
first_size : List (Option ShardData) → Option ℕ
first_size [] = none
first_size (none ∷ os) = first_size os
first_size (some s ∷ os) = some (shard_size_of s)

-- The loop that concatenates the data shards.
unfoldable pub gather : List (Option Bytes) → Outcome Bytes
gather [] = ok []
gather (none ∷ os) = fail (internal "Reconstruction failed")
gather (some b ∷ os) = do rest ← gather os; ok (b ++ rest)

abbrev pub bytes_of : Option ShardData → Option Bytes
bytes_of none = none
bytes_of (some s) = some s.bytes

unfoldable pub decode : ErasureEncoder → List (Option ShardData) → ℕ → Outcome Bytes
unfolding first_size gather
decode e shards original_size = do
  guard (length shards == total_shards e.config)
      (returns (shard_size_mismatch (total_shards e.config) (length shards)))
  guard (leb e.config.data_shards (count_some shards))
      (returns (insufficient_shards (count_some shards) e.config.data_shards))
  shard_size ← ok_or (first_size shards) (returns (insufficient_shards 0 e.config.data_shards))
  shard_vecs ← from_erasure (e.encoder.reconstruct (map bytes_of shards))
  result ← gather (take e.config.data_shards shard_vecs)
  ok (take original_size result)

same_sizes : ℕ → List ShardData → Bool
same_sizes n [] = true
same_sizes n (s ∷ ss) = if shard_size_of s == n then same_sizes n ss else false

expected_size : List ShardData → ℕ
expected_size [] = 0
expected_size (s ∷ ss) = shard_size_of s

unfoldable pub verify_shards : ErasureEncoder → List ShardData → Outcome Bool
unfolding same_sizes expected_size
verify_shards e shards =
    if not (length shards == total_shards e.config)
    then ok false
    else if not (same_sizes (expected_size shards) shards)
    then ok false
    else from_erasure (e.encoder.verify (map (λ s. s.bytes) shards))
