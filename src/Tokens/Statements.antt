-- ===== src/Tokens/Statements.antt =====
-- The statements of cyxcloud-metadata/src/postgres.rs on access tokens and shares. Rows of
-- data_access_tokens come without an order, and a new one is put first.
use cyxcloud.Prelude.{
  ℕ, ◌-◌, ◌*◌, Bool, true, false, not, ◌&&◌, ◌||◌, String, Option, none, some, List, [], ◌∷◌, map,
  ltb, ◌==◌, if◌then◌else◌, length, ◌=?◌, number_key, string_key, pair_key,
}
use cyxcloud.Prelude.Rows.{select, modify}
use cyxcloud.Prelude.Assoc.{get, insert, remove}
use cyxcloud.Catalog.{bytes_key}
use cyxcloud.Catalog.Files.{first_row}
use cyxcloud.Tokens.{DataAccessToken, DatasetShare, OwnedDataset, TokenTables}

abbrev pub token_key : DataAccessToken → ℕ
token_key t = t.id

abbrev pub is_unset : Option ℕ → Bool
is_unset none = true
is_unset (some t) = false

-- revoked_at IS NULL AND expires_at > NOW()
abbrev pub is_valid_token : ℕ → DataAccessToken → Bool
is_valid_token now t = is_unset t.revoked_at && ltb now t.expires_at

abbrev pub has_token : ℕ → List DataAccessToken → Bool
has_token id [] = false
has_token id (t ∷ ts) = if t.id == id then true else has_token id ts

unfoldable pub get_dataset : ℕ → TokenTables → Option OwnedDataset
get_dataset id d = first_row (select (λ s. s.id == id) d.datasets)

abbrev pub contains_id : ℕ → List ℕ → Bool
contains_id id [] = false
contains_id id (n ∷ ns) = (n == id) || contains_id id ns

abbrev pub names_known : Option ℕ → List ℕ → Bool
names_known none nodes = true
names_known (some n) nodes = contains_id n nodes

-- The primary key and the two foreign keys.
abbrev pub is_insertable : DataAccessToken → TokenTables → Bool
is_insertable t d =
    not (has_token t.id d.tokens)
    && not (is_none (get_dataset t.dataset_id d))
    && names_known t.node_id d.nodes
  where
    is_none : Option OwnedDataset → Bool
    is_none none = true
    is_none (some s) = false

unfoldable pub create_data_access_token : DataAccessToken → TokenTables → Option TokenTables
create_data_access_token t d =
    if is_insertable t d then some (record d { tokens = t ∷ d.tokens }) else none

unfoldable pub get_data_access_token : ℕ → ℕ → TokenTables → Option DataAccessToken
get_data_access_token id now d =
    first_row (select (λ t. (t.id == id) && is_valid_token now t) d.tokens)

unfoldable pub validate_data_access_token : List ℕ → ℕ → TokenTables → Option DataAccessToken
validate_data_access_token hash now d =
    first_row (select (λ t. (t.token_hash =? hash) && is_valid_token now t) d.tokens)

unfoldable pub revoke_data_access_token : ℕ → ℕ → TokenTables → TokenTables
revoke_data_access_token id now d = record d {
  tokens = modify token_key id (λ t. some (record t { revoked_at = some now })) d.tokens;
}

abbrev pub is_open_for : ℕ → DataAccessToken → Bool
is_open_for dataset t = (t.dataset_id == dataset) && is_unset t.revoked_at

unfoldable pub revoke_dataset_tokens : ℕ → ℕ → TokenTables → ℕ × TokenTables
revoke_dataset_tokens dataset now d = (
  length (select (is_open_for dataset) d.tokens),
  record d {
    tokens =
        map (λ t. if is_open_for dataset t then record t { revoked_at = some now } else t) d.tokens;
  },
)

abbrev pub is_long_expired : ℕ → DataAccessToken → Bool
is_long_expired now t = ltb t.expires_at (now - 7 * 86400 * 1000000)

unfoldable pub cleanup_expired_tokens : ℕ → TokenTables → ℕ × TokenTables
cleanup_expired_tokens now d = (
  length (select (is_long_expired now) d.tokens),
  record d { tokens = select (λ t. not (is_long_expired now t)) d.tokens },
)

-- expires_at IS NULL OR expires_at > NOW()
abbrev pub is_valid_share : ℕ → DatasetShare → Bool
is_valid_share now s = elim s.expires_at [ none ↦ true | some t ↦ ltb now t ]

unfoldable pub check_dataset_access : (dataset user now : ℕ) → TokenTables → Option DatasetShare
check_dataset_access dataset user now d = found (get (dataset, user) d.shares)
  where
    found : Option DatasetShare → Option DatasetShare
    found none = none
    found (some s) = if is_valid_share now s then some s else none

-- On a conflict, the permissions and the expiry are those of the new share and the rest stays.
abbrev pub upsert_share : DatasetShare → Option DatasetShare → DatasetShare
upsert_share s none = s
upsert_share s (some old) = record old { permissions = s.permissions; expires_at = s.expires_at }

abbrev pub insert_share : DatasetShare → TokenTables → TokenTables
insert_share s d =
    let k : ℕ × ℕ = (s.dataset_id, s.shared_with_user_id) in
    record d { shares = insert k (upsert_share s (get k d.shares)) d.shares }

unfoldable pub create_dataset_share : DatasetShare → TokenTables → Option TokenTables
create_dataset_share s d = elim (get_dataset s.dataset_id d) [
  | none ↦ none
  | some owned ↦ some (insert_share s d)
]

unfoldable pub get_dataset_shares : (dataset now : ℕ) → TokenTables → List DatasetShare
get_dataset_shares dataset now d =
    select (λ s. (s.dataset_id == dataset) && is_valid_share now s) (map (λ p. p.1) d.shares)

unfoldable pub remove_dataset_share : (dataset user : ℕ) → TokenTables → TokenTables
remove_dataset_share dataset user d = record d { shares = remove (dataset, user) d.shares }

-- `none` is the error RowNotFound.
unfoldable pub share_dataset : (dataset user : ℕ) → List String → TokenTables → Option TokenTables
share_dataset dataset user permissions d = elim (get_dataset dataset d) [
  | none ↦ none
  | some owned ↦
      create_dataset_share
        (record {
          dataset_id = dataset;
          shared_with_user_id = user;
          shared_by_user_id = owned.owner_id;
          permissions = permissions;
          expires_at = none;
        })
        d
]

-- `DatasetShare::can_read`, `can_stream` and `can_reshare` with the permission that they look for.
unfoldable pub has_scope : List String → String → Bool
has_scope [] scope = false
has_scope (s ∷ ss) scope = (s =? scope) || (s =? "*") || has_scope ss scope
