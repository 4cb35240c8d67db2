-- ===== src/Error.antt =====
-- cyxcloud-core/src/error.rs, and Rust's panics beside it.
use cyxcloud.Prelude.{ℕ, String}
use cyxcloud.Prelude.Results.{Result, ok, err}

-- The error of a third-party crate keeps its text; a text that the code formats from its arguments
-- is left out.
pub data CyxCloudError : Type 0 where
  erasure_coding : String → CyxCloudError
  insufficient_shards : (available required : ℕ) → CyxCloudError
  shard_size_mismatch : (expected actual : ℕ) → CyxCloudError
  invalid_shard_index : (index max_index : ℕ) → CyxCloudError
  encryption decryption : String → CyxCloudError
  invalid_key_length : (expected actual : ℕ) → CyxCloudError
  hash_verification_failed : CyxCloudError
  chunk_too_large : (size max_size : ℕ) → CyxCloudError
  chunk_too_small : (size min_size : ℕ) → CyxCloudError
  invalid_chunk_id : String → CyxCloudError
  chunk_not_found : String → CyxCloudError
  chunk_corrupted : CyxCloudError
  storage : String → CyxCloudError
  storage_full : (used capacity : ℕ) → CyxCloudError
  network : String → CyxCloudError
  peer_not_found : String → CyxCloudError
  connection_timeout : (peer : String) → CyxCloudError
  quorum_not_met : (achieved required : ℕ) → CyxCloudError
  io : CyxCloudError
  serialization configuration internal : String → CyxCloudError

-- How a call can fail: by an error that it returns, or by a panic.
pub data Failure : Type 0 where
  returns : CyxCloudError → Failure
  panics : Failure

abbrev pub Outcome {ℓ} : Type ℓ → Type ℓ
Outcome A = Result Failure A

abbrev pub fail {ℓ} : {A : Type ℓ} → CyxCloudError → Outcome A
fail e = err (returns e)

-- `impl From<reed_solomon_erasure::Error> for CyxCloudError`, where `?` meets such a result.
abbrev pub from_erasure {ℓ} : {A : Type ℓ} → Result String A → Outcome A
from_erasure (ok a) = ok a
from_erasure (err e) = fail (erasure_coding e)
