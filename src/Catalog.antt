-- ===== src/Catalog.antt =====
-- The tables files, chunks, chunk_locations, buckets and repair_jobs of
-- cyxcloud-metadata/migrations (001 and 006) with their statements in cyxcloud-metadata/src/postgres.rs:
-- Catalog/Files, Catalog/Locations and Catalog/Jobs. The statements go through, or as
-- AddSteps says for those of add_chunk_location; where a constraint or a
-- missing row makes one fail, the result is none. A chunk's identifier is the list of its bytes. Rows with
-- a unique key are kept by that key; columns that no statement reads or writes are left out.
pub mod Files
pub mod Locations
pub mod Jobs
pub mod Counts
pub mod Counting
pub mod Verified
mod Tests
use cyxcloud.Prelude.{
  ℕ, Bool, true, false, ◌&&◌, String, Option, none, some, List, [], ◌∷◌, ◌≡◌, ◌↔◌, refl, ◌=?◌, Key,
  number_key, arith,
}
use cyxcloud.Prelude.Assoc.{Map}
use cyxcloud.Lifecycle.{NodeStatus, LocationStatus}

abbrev pub same_bytes : List ℕ → List ℕ → Bool
same_bytes [] [] = true
same_bytes [] (y ∷ ys) = false
same_bytes (x ∷ xs) [] = false
same_bytes (x ∷ xs) (y ∷ ys) = (x =? y) && same_bytes xs ys

pub same_bytes_iff : (xs ys : List ℕ) → (same_bytes xs ys ≡ true) ↔ (xs ≡ ys)
same_bytes_iff [] [] = ground arith
same_bytes_iff [] (y ∷ ys) = ground arith
same_bytes_iff (x ∷ xs) [] = ground arith
same_bytes_iff (x ∷ xs) (y ∷ ys) = ground (arith, number_key.same_iff x y, same_bytes_iff xs ys)

instance abbrev pub bytes_key : Key (List ℕ)
bytes_key = record { same = same_bytes; same_iff = same_bytes_iff }

pub record File : Type 0 where
  pub id : ℕ
  pub name : String
  pub path : String
  pub content_hash : List ℕ
  pub size_bytes : ℕ
  pub chunk_count : ℕ
  pub data_shards : ℕ
  pub parity_shards : ℕ
  pub chunk_size : ℕ
  pub owner_id : Option ℕ
  pub bucket : Option String
  pub content_type : Option String
  pub metadata : Option String  -- JSON
  pub status : String
  pub deleted_at : Option ℕ

pub record CreateFile : Type 0 where
  pub id : Option ℕ
  pub name : String
  pub path : String
  pub content_hash : List ℕ
  pub size_bytes : ℕ
  pub chunk_count : ℕ
  pub data_shards : ℕ
  pub parity_shards : ℕ
  pub chunk_size : ℕ
  pub owner_id : Option ℕ
  pub bucket : Option String
  pub content_type : Option String
  pub metadata : Option String  -- JSON

pub record ChunkRow : Type 0 where
  pub chunk_id : List ℕ
  pub file_id : ℕ
  pub chunk_index : ℕ
  pub shard_index : ℕ
  pub is_parity : Bool
  pub size_bytes : ℕ
  pub replication_factor : ℕ
  pub current_replicas : ℕ
  pub status : String

pub record CreateChunk : Type 0 where
  pub chunk_id : List ℕ
  pub file_id : ℕ
  pub chunk_index : ℕ
  pub shard_index : ℕ
  pub is_parity : Bool
  pub size_bytes : ℕ
  pub replication_factor : ℕ

pub record LocationRow : Type 0 where
  pub chunk_id : List ℕ
  pub node_id : ℕ
  pub status : LocationStatus
  pub last_verified : Option ℕ
  pub verification_failures : ℕ

pub record StorageNode : Type 0 where
  pub id : ℕ
  pub peer_id : String
  pub grpc_address : String
  pub status : NodeStatus

pub record Bucket : Type 0 where
  pub name : String
  pub owner_id : ℕ

pub record JobRow : Type 0 where
  pub id : ℕ
  pub chunk_id : List ℕ
  pub source_node_id : Option ℕ
  pub target_node_id : ℕ
  pub status : String
  pub priority : ℕ
  pub started_at : Option ℕ
  pub completed_at : Option ℕ
  pub error_message : Option String
  pub created_at : ℕ

pub record Catalog : Type 0 where
  pub nodes : List StorageNode
  pub files : List File
  pub chunks : Map (List ℕ) ChunkRow
  pub locations : Map (List ℕ × ℕ) LocationRow
  pub users : List ℕ
  pub buckets : Map String Bucket
  pub jobs : List JobRow
