-- ===== src/Tokens/Tests.antt =====
-- Runs of the token service: creation, expiry, revocation and a share.
use cyxcloud.Prelude.{
  ℕ, ◌+◌, ◌≢◌, ◌≡◌, sym, true, none, some, [], ◌∷◌, refl, length, replicate, =?_refl, pos, arith,
  string_key, number_key, pair_key, length-replicate,
}
use cyxcloud.Prelude.Rows.{select, modify}
use cyxcloud.Prelude.Assoc.{get, insert}
use cyxcloud.Prelude.Results.{err, ok}
use cyxcloud.Catalog.{same_bytes, bytes_key}
use cyxcloud.Tokens.{
  token_not_found, token_expired, token_revoked, permission_denied, refused, TokenData, SignedToken,
  CreateTokenRequest, TokenResponse, DataAccessToken, TokenTables, Crates, IsLawful,
}
use cyxcloud.Tokens.Statements.{
  get_dataset, create_data_access_token, get_data_access_token, revoke_data_access_token,
  cleanup_expired_tokens, check_dataset_access, share_dataset, create_dataset_share,
}
use cyxcloud.Tokens.Service.{
  DataAccessTokenService, with_key, token_data, create_token, stored_token, encode_token,
  decode_token, check_signature, check_row, verify_token, revoke_token,
}
use cyxcloud.Tokens.Verification.{
  IsGrantOf, create_token-verify_token, revoke_token-verify_token,
  cleanup_expired_tokens-verify_token,
}

-- A signature repeats a number 64 times; tokens are their own JSON and text.
abbrev crates : Crates ℕ ℕ SignedToken SignedToken
crates = record {
  data_json = λ t. some (t.token_id ∷ t.user_id ∷ t.nonce);
  token_json = λ t. some t;
  parse_token = λ t. some t;
  base64 = λ t. t;
  parse_base64 = λ t. some t;
  public = λ k. k;
  sign = λ k m. replicate 64 (k + length m);
  verify = λ v m s. same_bytes (replicate 64 (v + length m)) s;
  hash = λ t. t.data_of.nonce;
  violation = "violates a constraint";
}

crates-IsLawful : IsLawful crates
crates-IsLawful = record {
  parse-base64 = λ t. refl;
  parse-json = λ t u h. sym h;
  verify-sign = λ k m. =?_refl (replicate 64 (k + length m));
  length-sign = λ k m. length-replicate 64 (k + length m);
}

abbrev service : DataAccessTokenService ℕ ℕ
service = with_key crates true 11

abbrev tables : TokenTables
tables = record {
  nodes = 5 ∷ [];
  datasets = record { id = 1; owner_id = 20 } ∷ [];
  shares = [];
  tokens = [];
}

abbrev request : CreateTokenRequest
request = record {
  dataset_id = 1;
  node_id = some 5;
  user_id = 20;
  scopes = "read" ∷ [];
  ttl_seconds = some (pos 60);
}

abbrev data_of_token : TokenData
data_of_token = token_data request 7 (3 ∷ []) 1000500000 1060500000

abbrev signed_token : SignedToken
signed_token = record { data_of = data_of_token; signature = replicate 64 14 }

abbrev response : TokenResponse SignedToken
response = record {
  token = signed_token;
  token_id = 7;
  expires_at = 1060500000;
  scopes = "read" ∷ [];
}

abbrev one_token : TokenTables
one_token = record tables {
  tokens = stored_token crates request 7 signed_token 1000500000 1060500000 ∷ [];
}

created :
    create_token crates service request 7 (3 ∷ []) 1000500000 tables ≡ ok (response, one_token)
unfolding create_token get_dataset create_data_access_token encode_token select
created = refl

create_token-verify_token_example :
    (t : TokenData) × IsGrantOf request 7 1060500000 t
    × (verify_token crates service signed_token 1060499999 one_token ≡ ok t)
create_token-verify_token_example =
    create_token-verify_token crates true 11 request 7 (3 ∷ []) 1000500000 1060499999 tables
      one_token response crates-IsLawful created

-- Within the second of its expiry a token is not found, and after it expired.
at_expiry :
    (verify_token crates service signed_token 1060500000 one_token ≡ err (refused token_not_found))
    × (verify_token crates service signed_token 1061000000 one_token ≡ err (refused token_expired))
unfolding verify_token check_signature decode_token check_row get_data_access_token select
at_expiry = (refl, refl)

abbrev revoked : TokenTables
revoked = record tables {
  tokens =
      record (stored_token crates request 7 signed_token 1000500000 1060500000) {
        revoked_at = some 1001000000;
      }
      ∷ [];
}

only_by_its_user :
    (revoke_token service 7 20 1001000000 one_token ≡ ok revoked)
    × (revoke_token service 7 21 1001000000 one_token ≡ err (refused permission_denied))
unfolding revoke_token get_data_access_token revoke_data_access_token select modify
only_by_its_user = (refl, refl)

abbrev other_request : CreateTokenRequest
other_request = record request { user_id = 21 }

-- A user of a share gets a token, and nobody else does.
by_share :
    (create_token crates service other_request 8 [] 1000500000 tables
      ≡ err (refused permission_denied))
    × (elim (share_dataset 1 21 ("read" ∷ []) tables) [
      | none ↦ none
      | some d ↦
          get_data_access_token 8 1000500001
            (elim (create_token crates service other_request 8 [] 1000500000 d) [
              | err e ↦ d
              | ok p ↦ p.1
            ])
    ]
        ≡ some (
            stored_token crates other_request 8
              (record {
                data_of = token_data other_request 8 [] 1000500000 1060500000;
                signature = replicate 64 13;
              })
              1000500000
              1060500000))
unfolding create_token get_dataset create_data_access_token encode_token select share_dataset
    create_dataset_share check_dataset_access get insert get_data_access_token
by_share = (refl, refl)

-- A token whose lifetime is negative is expired from the start.
born_expired :
    verify_token crates service
      (record {
        data_of = token_data request 7 [] 1000500000 999500000;
        signature = replicate 64 13;
      })
      1000500000
      (record tables {
        tokens = stored_token crates request 7 signed_token 1000500000 999500000 ∷ [];
      })
    ≡ err (refused token_expired)
unfolding verify_token check_signature decode_token check_row
born_expired = refl

abbrev second_request : CreateTokenRequest
second_request = record request { scopes = "stream" ∷ [] }

abbrev second_data : TokenData
second_data = token_data second_request 8 [] 1000500000 1060500000

abbrev second_token : SignedToken
second_token = record { data_of = second_data; signature = replicate 64 13 }

abbrev second_row : DataAccessToken
second_row = stored_token crates second_request 8 second_token 1000500000 1060500000

abbrev one_revoked : TokenTables
one_revoked = record revoked { tokens = second_row ∷ revoked.tokens }

revoke_token-verify_token_example : second_data.token_id ≢ 7
unfolding revoke_token verify_token check_signature decode_token check_row get_data_access_token
    revoke_data_access_token select modify
revoke_token-verify_token_example =
    revoke_token-verify_token crates service service 7 20 1001000000 1002000000
      (record one_token { tokens = second_row ∷ one_token.tokens }) one_revoked second_token
      second_data refl refl

-- Three weeks later the row is dropped.
cleanup_expired_tokens-verify_token_example :
    (verify_token crates service signed_token 1814400000000
        (cleanup_expired_tokens 1814400000000 one_token).1
      ≡ verify_token crates service signed_token 1814400000000 one_token)
    × (verify_token crates service signed_token 1814400000000 one_token
        ≢ err (refused token_revoked))
cleanup_expired_tokens-verify_token_example =
    cleanup_expired_tokens-verify_token crates service 1814400000000 1814400000000 one_token
      signed_token (omega arith)

dropped : (cleanup_expired_tokens 1814400000000 one_token).1.tokens ≡ []
unfolding cleanup_expired_tokens select
dropped = refl
