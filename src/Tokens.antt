-- ===== src/Tokens.antt =====
-- Data access tokens: cyxcloud-gateway/src/data_access.rs (the types), with the tables data_access_tokens
-- and dataset_shares of cyxcloud-metadata/migrations/007_datastream.sql. Tokens/Statements has the statements
-- on them and Tokens/Service the service. Time is counted in microseconds from the earliest instant that
-- chrono knows, so that a time before it is the panic of the crate; the gateway and the database read the
-- same clock. JSON, Base64, Ed25519 and BLAKE3 are parameters.
pub mod Statements
pub mod Service
pub mod Verification
mod Tests
use cyxcloud.Prelude.{ℕ, Bool, true, String, Option, some, List, ◌≡◌, ℤ, length}
use cyxcloud.Prelude.Assoc.{Map}

pub data DataAccessError : Type 0 where
  dataset_not_found : ℕ → DataAccessError
  permission_denied : DataAccessError
  token_not_found : DataAccessError
  token_expired : DataAccessError
  token_revoked : DataAccessError
  invalid_token : DataAccessError
  invalid_signature : DataAccessError
  database : String → DataAccessError

-- A call that returns an error, or that panics.
pub data Stop : Type 0 where
  refused : DataAccessError → Stop
  panicked : Stop

pub record TokenData : Type 0 where
  pub token_id : ℕ
  pub dataset_id : ℕ
  pub node_id : Option ℕ
  pub user_id : ℕ
  pub scopes : List String
  pub expires_at : ℕ
  pub created_at : ℕ
  pub nonce : List ℕ

pub record SignedToken : Type 0 where
  pub data_of : TokenData
  pub signature : List ℕ

pub record CreateTokenRequest : Type 0 where
  pub dataset_id : ℕ
  pub node_id : Option ℕ
  pub user_id : ℕ
  pub scopes : List String
  pub ttl_seconds : Option ℤ

pub record TokenResponse (S : Type 0) : Type 0 where
  pub token : S
  pub token_id : ℕ
  pub expires_at : ℕ
  pub scopes : List String

-- The columns of datasets that the tokens depend on.
pub record OwnedDataset : Type 0 where
  pub id : ℕ
  pub owner_id : ℕ

pub record DataAccessToken : Type 0 where
  pub id : ℕ
  pub dataset_id : ℕ
  pub node_id : Option ℕ
  pub user_id : ℕ
  pub token_hash : List ℕ
  pub scopes : List String
  pub expires_at : ℕ
  pub created_at : ℕ
  pub revoked_at : Option ℕ

pub record DatasetShare : Type 0 where
  pub dataset_id : ℕ
  pub shared_with_user_id : ℕ
  pub shared_by_user_id : ℕ
  pub permissions : List String
  pub expires_at : Option ℕ

pub record TokenTables : Type 0 where
  pub nodes : List ℕ
  pub datasets : List OwnedDataset
  pub shares : Map (ℕ × ℕ) DatasetShare
  pub tokens : List DataAccessToken

-- What the crates do, on signing keys K, public keys V, the JSON J of a signed token and its text S; `violation` is what the database says of a
-- violated constraint.
pub record Crates (K V J S : Type 0) : Type 0 where
  pub data_json : TokenData → Option (List ℕ)
  pub token_json : SignedToken → Option J
  pub parse_token : J → Option SignedToken
  pub base64 : J → S
  pub parse_base64 : S → Option J
  pub public : K → V
  pub sign : K → List ℕ → List ℕ
  pub verify : V → (message signature : List ℕ) → Bool
  pub hash : S → List ℕ
  pub violation : String

-- What is encoded is decoded again, and a signature has 64 bytes and is accepted under its public key.
pub record IsLawful {K V J S : Type 0} (x : Crates K V J S) : Type 0 where
  pub parse-base64 : (bytes : J) → x.parse_base64 (x.base64 bytes) ≡ some bytes
  pub parse-json :
      (t : SignedToken) (bytes : J) → x.token_json t ≡ some bytes → x.parse_token bytes ≡ some t
  pub verify-sign : (k : K) (m : List ℕ) → x.verify (x.public k) m (x.sign k m) ≡ true
  pub length-sign : (k : K) (m : List ℕ) → length (x.sign k m) ≡ 64
