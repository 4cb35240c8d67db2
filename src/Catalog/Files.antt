-- ===== src/Catalog/Files.antt =====
-- Files, chunks and buckets of cyxcloud-metadata/src/postgres.rs. The order of texts and the pattern match
-- LIKE are those of the database and a parameter.
use cyxcloud.Prelude.{
  ℕ, ◌-◌, Bool, true, false, not, ◌&&◌, String, Option, none, some, List, [], ◌∷◌, ◌++◌, map, ltb,
  leb, ◌==◌, if◌then◌else◌, length, take, drop, ◌=?◌, string_key,
}
use cyxcloud.Prelude.Rows.{select, modify}
use cyxcloud.Prelude.Assoc.{Map, get, insert, remove}
use cyxcloud.Prelude.Sorting.{sort_by, descending}
use cyxcloud.Catalog.{Catalog, File, CreateFile, ChunkRow, CreateChunk, Bucket, bytes_key}

abbrev pub file_key : File → ℕ
file_key f = f.id

abbrev pub or_generated : Option ℕ → ℕ → ℕ
or_generated none generated = generated
or_generated (some id) generated = id

abbrev pub is_live : File → Bool
is_live f = elim f.deleted_at [ none ↦ true | some t ↦ false ]

abbrev pub new_file : CreateFile → ℕ → File
new_file f generated = record {
  id = or_generated f.id generated;
  name = f.name;
  path = f.path;
  content_hash = f.content_hash;
  size_bytes = f.size_bytes;
  chunk_count = f.chunk_count;
  data_shards = f.data_shards;
  parity_shards = f.parity_shards;
  chunk_size = f.chunk_size;
  owner_id = f.owner_id;
  bucket = f.bucket;
  content_type = f.content_type;
  metadata = f.metadata;
  status = "pending";
  deleted_at = none;
}

-- `fetch_optional`
abbrev pub first_row : {A : Type 0} → List A → Option A
first_row [] = none
first_row (r ∷ rs) = some r

abbrev pub has_file : ℕ → List File → Bool
has_file id [] = false
has_file id (f ∷ fs) = if f.id == id then true else has_file id fs

-- The primary key refuses an identifier that is in use.
unfoldable pub create_file : CreateFile → ℕ → Catalog → Option Catalog
create_file f generated c =
    if has_file (or_generated f.id generated) c.files
    then none
    else some (record c { files = c.files ++ (new_file f generated ∷ []) })

unfoldable pub get_file : ℕ → Catalog → Option File
get_file id c = first_row (select (λ f. (f.id == id) && is_live f) c.files)

unfoldable pub get_file_by_path : String → Catalog → Option File
get_file_by_path path c = first_row (select (λ f. (f.path =? path) && is_live f) c.files)

abbrev pub in_bucket : String → Option String → Bool
in_bucket name none = false
in_bucket name (some b) = b =? name

-- What the database knows of texts.
pub record Texts : Type 0 where
  pub at_most : String → String → Bool
  pub like : String → String → Bool
  pub append : String → String → String

abbrev pub fits_prefix : Texts → Option String → File → Bool
fits_prefix t none f = true
fits_prefix t (some prefix) f = t.like f.path (t.append prefix "%")

unfoldable pub list_files_in_bucket :
    Texts → String → Option String → (limit offset : ℕ) → Catalog → List File
list_files_in_bucket t name prefix limit offset c = take limit (
    drop offset (
      sort_by (λ f g. t.at_most f.path g.path)
        (select (λ f. in_bucket name f.bucket && fits_prefix t prefix f && is_live f) c.files)))

unfoldable pub update_file_status : ℕ → String → Catalog → Catalog
update_file_status id text c = record c {
  files = modify file_key id (λ f. some (record f { status = text })) c.files;
}

unfoldable pub delete_file : ℕ → ℕ → Catalog → Catalog
delete_file id now c = record c {
  files =
      modify file_key id (λ f. some (record f { deleted_at = some now; status = "deleted" }))
        c.files;
}

-- A foreign key asks for the file, a unique key refuses a second chunk of the same identifier.
abbrev pub insert_chunk : CreateChunk → Option ChunkRow → Catalog → Option Catalog
insert_chunk k (some old) c = none
insert_chunk k none c = some (record c {
  chunks =
      insert k.chunk_id
        (record {
          chunk_id = k.chunk_id;
          file_id = k.file_id;
          chunk_index = k.chunk_index;
          shard_index = k.shard_index;
          is_parity = k.is_parity;
          size_bytes = k.size_bytes;
          replication_factor = k.replication_factor;
          current_replicas = 0;
          status = "pending";
        })
        c.chunks;
})

unfoldable pub create_chunk : CreateChunk → Catalog → Option Catalog
create_chunk k c =
    if has_file k.file_id c.files then insert_chunk k (get k.chunk_id c.chunks) c else none

abbrev pub get_chunk_by_id : List ℕ → Catalog → Option ChunkRow
get_chunk_by_id id c = get id c.chunks

-- ORDER BY chunk_index, shard_index
abbrev pub is_not_after : ChunkRow → ChunkRow → Bool
is_not_after a b =
    if a.chunk_index == b.chunk_index
    then leb a.shard_index b.shard_index
    else ltb a.chunk_index b.chunk_index

unfoldable pub get_file_chunks : ℕ → Catalog → List ChunkRow
get_file_chunks id c =
    sort_by is_not_after (select (λ k. k.file_id == id) (map (λ p. p.1) c.chunks))

abbrev pub change_chunk :
    List ℕ → (ChunkRow → ChunkRow) → Option ChunkRow → Map (List ℕ) ChunkRow → Map (List ℕ) ChunkRow
change_chunk id f none m = m
change_chunk id f (some k) m = insert id (f k) m

unfoldable pub update_chunk_status : List ℕ → String → Catalog → Catalog
update_chunk_status id text c = record c {
  chunks = change_chunk id (λ k. record k { status = text }) (get id c.chunks) c.chunks;
}

unfoldable pub update_chunk_replicas : List ℕ → ℕ → Catalog → Catalog
update_chunk_replicas id count c = record c {
  chunks = change_chunk id (λ k. record k { current_replicas = count }) (get id c.chunks) c.chunks;
}

-- `replicas_needed` of the view is positive.
abbrev pub needs_replicas : ChunkRow → Bool
needs_replicas k = not (k.status =? "pending") && ltb k.current_replicas k.replication_factor

unfoldable pub get_under_replicated_chunks : ℕ → Catalog → List ChunkRow
get_under_replicated_chunks limit c = take limit (
    sort_by (descending (λ k. k.replication_factor - k.current_replicas))
      (select needs_replicas (map (λ p. p.1) c.chunks)))

abbrev pub insert_bucket : Bucket → Option Bucket → Catalog → Option Catalog
insert_bucket b (some old) c = none
insert_bucket b none c = some (record c { buckets = insert b.name b c.buckets })

abbrev pub has_user : ℕ → List ℕ → Bool
has_user id [] = false
has_user id (u ∷ us) = if u == id then true else has_user id us

-- The name is unique, and a foreign key asks for the owner.
unfoldable pub create_bucket : String → ℕ → Catalog → Option Catalog
create_bucket bucket_name owner c =
    if not (has_user owner c.users)
    then none
    else insert_bucket (record { name = bucket_name; owner_id = owner }) (get bucket_name c.buckets)
        c

abbrev pub get_bucket : String → Catalog → Option Bucket
get_bucket name c = get name c.buckets

unfoldable pub list_user_buckets : Texts → ℕ → Catalog → List Bucket
list_user_buckets t owner c =
    sort_by (λ a b. t.at_most a.name b.name)
      (select (λ b. b.owner_id == owner) (map (λ p. p.1) c.buckets))

unfoldable pub delete_bucket : String → Catalog → Catalog
delete_bucket name c = record c { buckets = remove name c.buckets }

unfoldable pub count_files_in_bucket : String → Catalog → ℕ
count_files_in_bucket name c = length (select (λ f. in_bucket name f.bucket && is_live f) c.files)

abbrev pub bucket_is_empty : String → Catalog → Bool
bucket_is_empty name c = count_files_in_bucket name c == 0
