-- ===== src/Tokens/Service.antt =====
-- DataAccessTokenService of cyxcloud-gateway/src/data_access.rs. The identifier, the nonce and the time of a
-- call are arguments; has_metadata tells whether the gateway has a metadata service.
use cyxcloud.Prelude.{
  ℕ, ◌+◌, ◌-◌, ◌*◌, ◌/◌, min, Bool, not, Option, none, some, List, ltb, ◌==◌, if◌then◌else◌, length,
  ℤ, pos, negsuc,
}
use cyxcloud.Prelude.Results.{Result, err, ok, ◌>>=◌, guard, ok_or}
use cyxcloud.Tokens.{
  dataset_not_found, permission_denied, token_not_found, token_expired, token_revoked,
  invalid_token, invalid_signature, database, Stop, refused, panicked, TokenData, SignedToken,
  CreateTokenRequest, TokenResponse, OwnedDataset, DataAccessToken, DatasetShare, TokenTables,
  Crates,
}
use cyxcloud.Tokens.Statements.{
  get_dataset, check_dataset_access, create_data_access_token, get_data_access_token,
  revoke_data_access_token,
}

pub record DataAccessTokenService (K V : Type 0) : Type 0 where
  pub has_metadata : Bool
  pub signing_key : K
  pub verifying_key : V

abbrev pub default_token_ttl_secs : ℕ
default_token_ttl_secs = 24 * 60 * 60

abbrev pub max_token_ttl_secs : ℕ
max_token_ttl_secs = 7 * 24 * 60 * 60

abbrev pub ttl_of : Option ℤ → ℤ
ttl_of none = pos (min default_token_ttl_secs max_token_ttl_secs)
ttl_of (some (pos s)) = pos (min s max_token_ttl_secs)
ttl_of (some (negsuc s)) = negsuc s

-- `now + Duration::seconds(ttl_secs)`
abbrev pub add_seconds : ℤ → ℕ → Result Stop ℕ
add_seconds (pos s) now = ok (now + s * 1000000)
add_seconds (negsuc s) now =
    if ltb now ((s + 1) * 1000000) then err panicked else ok (now - (s + 1) * 1000000)

-- `DateTime::timestamp`
abbrev pub timestamp : ℕ → ℕ
timestamp t = t / 1000000

abbrev pub need_metadata : Bool → Result Stop (Unit {0})
need_metadata has = guard has (refused (database "Metadata service not available"))

-- The owner may, and whoever the dataset is shared with.
abbrev pub permit : CreateTokenRequest → ℕ → TokenTables → OwnedDataset → Result Stop (Unit {0})
permit r now d owned =
    if owned.owner_id == r.user_id
    then ok tt
    else permit_shared (check_dataset_access r.dataset_id r.user_id now d)
  where
    permit_shared : Option DatasetShare → Result Stop (Unit {0})
    permit_shared none = err (refused permission_denied)
    permit_shared (some share) = ok tt

abbrev pub check_access : CreateTokenRequest → ℕ → TokenTables → Result Stop (Unit {0})
check_access r now d =
    ok_or (get_dataset r.dataset_id d) (refused (dataset_not_found r.dataset_id)) >>= permit r now d

abbrev pub token_data : CreateTokenRequest → ℕ → List ℕ → (now expires_at : ℕ) → TokenData
token_data r token_id nonce now expires_at = record {
  token_id = token_id;
  dataset_id = r.dataset_id;
  node_id = r.node_id;
  user_id = r.user_id;
  scopes = r.scopes;
  expires_at = timestamp expires_at;
  created_at = timestamp now;
  nonce = nonce;
}

module _ {K V J S : Type 0} (x : Crates K V J S) where
  abbrev pub with_key : Bool → K → DataAccessTokenService K V
  with_key has k = record { has_metadata = has; signing_key = k; verifying_key = x.public k }

  unfoldable pub encode_token : SignedToken → Result Stop S
  encode_token t = ok_or (x.token_json t) (refused invalid_token) >>= λ json. ok (x.base64 json)

  unfoldable pub decode_token : S → Result Stop SignedToken
  decode_token s = ok_or (x.parse_base64 s) (refused invalid_token) >>= λ json.
      ok_or (x.parse_token json) (refused invalid_token)

  abbrev pub sign_token : K → TokenData → Result Stop S
  sign_token k data_of = ok_or (x.data_json data_of) (refused invalid_token) >>= λ bytes.
      encode_token (record { data_of = data_of; signature = x.sign k bytes })

  abbrev pub stored_token : CreateTokenRequest → ℕ → S → (now expires_at : ℕ) → DataAccessToken
  stored_token r token_id token now expires_at = record {
    id = token_id;
    dataset_id = r.dataset_id;
    node_id = r.node_id;
    user_id = r.user_id;
    token_hash = x.hash token;
    scopes = r.scopes;
    expires_at = expires_at;
    created_at = now;
    revoked_at = none;
  }

  abbrev pub store_token :
      DataAccessToken → S → TokenTables → Result Stop (TokenResponse S × TokenTables)
  store_token t token d =
      ok_or (create_data_access_token t d) (refused (database x.violation)) >>= λ d'.
      ok (
        record { token = token; token_id = t.id; expires_at = t.expires_at; scopes = t.scopes },
        d',
      )

  unfoldable pub create_token :
      DataAccessTokenService K V
      → CreateTokenRequest
      → (token_id : ℕ) → (nonce : List ℕ) → (now : ℕ) → TokenTables
      → Result Stop (TokenResponse S × TokenTables)
  create_token s r token_id nonce now d = need_metadata s.has_metadata >>= λ _.
      check_access r now d >>= λ _. add_seconds (ttl_of r.ttl_seconds) now >>= λ expires_at.
      sign_token s.signing_key (token_data r token_id nonce now expires_at) >>= λ token.
      store_token (stored_token r token_id token now expires_at) token d

  -- The first half of `verify_token`, up to the signature.
  unfoldable pub check_signature : V → S → Result Stop TokenData
  check_signature v token = decode_token token >>= λ t.
      ok_or (x.data_json t.data_of) (refused invalid_token) >>= λ bytes.
      guard (length t.signature == 64) (refused invalid_signature) >>= λ _.
      guard (x.verify v bytes t.signature) (refused invalid_signature) >>= λ _. ok t.data_of

abbrev pub accept : Option DataAccessToken → Result Stop (Unit {0})
accept none = err (refused token_not_found)
accept (some t) = elim t.revoked_at [ none ↦ ok tt | some r ↦ err (refused token_revoked) ]

-- The second half of `verify_token`: the expiry, and the row in the database.
unfoldable pub check_row : Bool → TokenData → ℕ → TokenTables → Result Stop TokenData
check_row has t now d =
    guard (not (ltb t.expires_at (timestamp now))) (refused token_expired) >>= λ _.
    need_metadata has >>= λ _. accept (get_data_access_token t.token_id now d) >>= λ _. ok t

module _ {K V J S : Type 0} (x : Crates K V J S) where
  unfoldable pub verify_token :
      DataAccessTokenService K V → S → ℕ → TokenTables → Result Stop TokenData
  verify_token s token now d =
      check_signature x s.verifying_key token >>= λ t. check_row s.has_metadata t now d

unfoldable pub revoke_token :
    {K V : Type 0}
    → DataAccessTokenService K V
    → (token_id user_id now : ℕ) → TokenTables
    → Result Stop TokenTables
revoke_token s token_id user_id now d = need_metadata s.has_metadata >>= λ _.
    ok_or (get_data_access_token token_id now d) (refused token_not_found) >>= λ t.
    guard (t.user_id == user_id) (refused permission_denied) >>= λ _.
    ok (revoke_data_access_token token_id now d)
