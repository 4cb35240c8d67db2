-- ===== src/Tokens/Verification.antt =====
-- What the tokens of cyxcloud-gateway/src/data_access.rs promise: from creation to expiry, revocation and
-- cleanup.
use cyxcloud.Prelude.{
  ℕ, ◌-◌, ◌≤◌, Bool, true, false, not, ◌&&◌, Option, none, some, List, [], ◌∷◌, ltb, ◌==◌,
  if◌then◌else◌, ◌≡◌, ◌≢◌, refl, sym, ap, ◌∙◌, subst, length, arith, Bool-cases, Option-cases,
  number_key, inl, inr,
}
use cyxcloud.Prelude.Rows.{select, modify}
use cyxcloud.Prelude.Results.{Result, err, ok, ◌>>=◌, guard, ok_or, bind_ok, ok_injective}
use cyxcloud.Catalog.Files.{first_row}
use cyxcloud.Tokens.{
  permission_denied, token_not_found, token_expired, token_revoked, invalid_token,
  invalid_signature, database, Stop, refused, TokenData, SignedToken, CreateTokenRequest,
  TokenResponse, DataAccessToken, TokenTables, Crates, IsLawful,
}
use cyxcloud.Tokens.Statements.{
  token_key, is_insertable, is_unset, is_valid_token, has_token, get_data_access_token,
  create_data_access_token, revoke_data_access_token, cleanup_expired_tokens, is_long_expired,
}
use cyxcloud.Tokens.Service.{
  DataAccessTokenService, with_key, ttl_of, add_seconds, timestamp, need_metadata, check_access,
  token_data, sign_token, stored_token, create_token, encode_token, decode_token, check_signature,
  check_row, accept, verify_token, revoke_token,
}

-- The rows that a read of a token goes through.
abbrev is_read : ℕ → ℕ → DataAccessToken → Bool
is_read id now t = (t.id == id) && is_valid_token now t

module _ {A : Type 0} (test : A → Bool) where
  first_row-select : (xs : List A) (x : A) → first_row (select test xs) ≡ some x → test x ≡ true
  unfolding select
  first_row-select [] x h = absurd (ground arith)
  first_row-select (y ∷ ys) x h = elim (Bool-cases (test y)) [
    | inl t ↦
        let found : some y ≡ some x =
          subst (λ b. first_row (if b then y ∷ select test ys else select test ys) ≡ some x) t h in
        subst (λ z. test z ≡ true) (some_value y y x found) t
    | inr t ↦
        first_row-select ys x
          (subst (λ b. first_row (if b then y ∷ select test ys else select test ys) ≡ some x) t h)
  ]
    where
      some_value : (d a b : A) → some a ≡ some b → a ≡ b
      some_value d a b e = ap (λ (o : Option A). elim o [ none ↦ d | some z ↦ z ]) e

  -- A filter that keeps what the test asks for does not change the rows read.
  select-select :
      (keep : A → Bool) (xs : List A)
      → ((a : A) → test a ≡ true → keep a ≡ true)
      → select test (select keep xs) ≡ select test xs
  unfolding select
  select-select keep [] h = refl
  select-select keep (y ∷ ys) h = elim (Bool-cases (keep y)) [
    | inl k ↦ rw k (ap (λ rest. if test y then y ∷ rest else rest) (select-select keep ys h))
    | inr k ↦ rw (k, refused_too k) (select-select keep ys h)
  ]
    where
      refused_too : keep y ≡ false → test y ≡ false
      refused_too k = elim (Bool-cases (test y)) [
        | inl t ↦ absurd (ground (arith, h y t, k))
        | inr t ↦ t
      ]

no_token :
    (id now : ℕ) (ts : List DataAccessToken)
    → has_token id ts ≡ false
    → select (is_read id now) ts ≡ []
unfolding select
no_token id now [] h = refl
no_token id now (t ∷ ts) h = elim (Bool-cases (t.id == id)) [
  | inl e ↦ absurd (ground (arith, h, e))
  | inr e ↦
      rw e (no_token id now ts (subst (λ b. (if b then true else has_token id ts) ≡ false) e h))
]

unset_of_valid : (a c : Bool) (o : Option ℕ) → (a && (is_unset o && c)) ≡ true → o ≡ none
unset_of_valid a c none h = refl
unset_of_valid true c (some r) h = absurd (ground arith)
unset_of_valid false c (some r) h = absurd (ground arith)

ok_or_ok : {E A : Type 0} (o : Option A) (e : E) (a : A) → ok_or o e ≡ ok a → o ≡ some a
ok_or_ok none e a h = absurd (ground arith)
ok_or_ok (some b) e a h = ap some (ok_injective h)

-- What a read gives has not been revoked.
accept_get :
    (id now : ℕ) (d : TokenTables)
    → accept (get_data_access_token id now d) ≢ err (refused token_revoked)
unfolding get_data_access_token
accept_get id now d h = elim (Option-cases (get_data_access_token id now d)) [
  | inl e ↦ absurd (ground (arith, subst (λ o. accept o ≡ err (refused token_revoked)) e h))
  | inr (t, e) ↦
      let unset =
        unset_of_valid (t.id == id) (ltb now t.expires_at) t.revoked_at
          (first_row-select (is_read id now) d.tokens t e) in
      absurd (ground (arith, unset, subst (λ o. accept o ≡ err (refused token_revoked)) e h))
]

module _ {K V J S : Type 0} (x : Crates K V J S) (law : IsLawful x) (k : K) where
  -- What the service signs is accepted under its public key.
  check_signature-sign_token :
      (t : TokenData) (token : S)
      → sign_token x k t ≡ ok token
      → check_signature x (x.public k) token ≡ ok t
  unfolding check_signature encode_token decode_token
  check_signature-sign_token t token h =
      let (bytes, e, h1) = bind_ok (ok_or (x.data_json t) (refused invalid_token)) _ token h in
      let signed : SignedToken = record { data_of = t; signature = x.sign k bytes } in
      let (json, f, h2) =
        bind_ok (ok_or (x.token_json signed) (refused invalid_token)) _ token h1 in
      subst (λ s. check_signature x (x.public k) s ≡ ok t) (ok_injective h2)
        (rw
          (
            law.parse-base64 json,
            law.parse-json signed json (ok_or_ok (x.token_json signed) _ json f),
            ok_or_ok (x.data_json t) _ bytes e,
            law.length-sign k bytes,
            law.verify-sign k bytes,
          )
          refl)

no_none : {A : Type 0} (a : A) → none ≢ some a
no_none a h = absurd (ground arith)

some_tables : {c d : TokenTables} → some c ≡ some d → c ≡ d
some_tables {c = c} h = ap (λ (o : Option TokenTables). elim o [ none ↦ c | some x ↦ x ]) h

abbrev with_token : DataAccessToken → TokenTables → TokenTables
with_token t d = record d { tokens = t ∷ d.tokens }

absent : (a b c : Bool) → (not a && b && c) ≡ true → a ≡ false
absent a b c h = ground arith

first_row-new :
    (t : DataAccessToken) (later : ℕ) (rest : List DataAccessToken)
    → t.revoked_at ≡ none
    → rest ≡ []
    → first_row (if is_read t.id later t then t ∷ rest else rest)
      ≡ (if ltb later t.expires_at then some t else none)
first_row-new t later rest u e =
    ap (λ rs. first_row (if is_read t.id later t then t ∷ rs else rs)) e
    ∙ ap (λ (b : Bool). first_row (if b then t ∷ [] else [])) (read_new t.revoked_at u)
    ∙ by_time (ltb later t.expires_at)
  where
    read_new :
        (o : Option ℕ)
        → o ≡ none
        → ((t.id == t.id) && (is_unset o && ltb later t.expires_at)) ≡ ltb later t.expires_at
    read_new o e' = ground (arith, e')

    by_time : (b : Bool) → first_row (if b then t ∷ [] else []) ≡ (if b then some t else none)
    by_time true = refl
    by_time false = refl

-- A row that was just put in is read until it expires.
get-create :
    (t : DataAccessToken) (later : ℕ) (d d' : TokenTables)
    → t.revoked_at ≡ none
    → create_data_access_token t d ≡ some d'
    → get_data_access_token t.id later d' ≡ (if ltb later t.expires_at then some t else none)
unfolding get_data_access_token create_data_access_token select
get-create t later d d' u h = elim (Bool-cases (is_insertable t d)) [
  | inr b ↦
      absurd (no_none d' (subst (λ b. (if b then some (with_token t d) else none) ≡ some d') b h))
  | inl b ↦
      subst
        (λ (c : TokenTables).
          get_data_access_token t.id later c ≡ (if ltb later t.expires_at then some t else none))
        (some_tables (subst (λ b. (if b then some (with_token t d) else none) ≡ some d') b h))
        (first_row-new t later (select (is_read t.id later) d.tokens) u
          (no_token t.id later d.tokens (absent _ _ _ b)))
]

past :
    (b : Bool) (r : Result Stop TokenData)
    → (guard (not b) (refused token_expired) >>= λ _. r)
      ≡ (if b then err (refused token_expired) else r)
past true r = refl
past false r = refl

check_row-read :
    (t : TokenData) (later : ℕ) (d : TokenTables) (row : DataAccessToken) (live : Bool)
    → get_data_access_token t.token_id later d ≡ (if live then some row else none)
    → row.revoked_at ≡ none
    → check_row true t later d ≡ (
        if ltb t.expires_at (timestamp later)
        then err (refused token_expired)
        else (if live then ok t else err (refused token_not_found)))
unfolding check_row
check_row-read t later d row true h u = rw (h, u) (past (ltb t.expires_at (timestamp later)) (ok t))
check_row-read t later d row false h u =
    rw h (past (ltb t.expires_at (timestamp later)) (err (refused token_not_found)))

create_token-answer :
    {K V J S : Type 0} (x : Crates K V J S) (has : Bool) (k : K) (r : CreateTokenRequest) (id : ℕ)
    (nonce : List ℕ) (now later : ℕ) (d d' : TokenTables) (response : TokenResponse S)
    → IsLawful x
    → create_token x (with_key x has k) r id nonce now d ≡ ok (response, d')
    → verify_token x (with_key x has k) response.token later d' ≡ (
        if ltb (timestamp response.expires_at) (timestamp later)
        then err (refused token_expired)
        else (if ltb later response.expires_at
            then ok (token_data r id nonce now response.expires_at)
            else err (refused token_not_found)))
unfolding verify_token create_token check_row
create_token-answer {S = S} x false k r id nonce now later d d' response law h =
    absurd (ground arith)
create_token-answer {S = S} x true k r id nonce now later d d' response law h =
    let (_, _, h1) = bind_ok (check_access r now d) _ (response, d') h in
    let (at, _, h2) = bind_ok (add_seconds (ttl_of r.ttl_seconds) now) _ (response, d') h1 in
    let t : TokenData = token_data r id nonce now at in
    let (token, signed, h3) = bind_ok (sign_token x k t) _ (response, d') h2 in
    let row : DataAccessToken = stored_token x r id token now at in
    let (c, stored, h4) =
      bind_ok (ok_or (create_data_access_token row d) (refused (database x.violation))) _
        (response, d') h3 in
    subst
      (λ (p : TokenResponse S × TokenTables).
        verify_token x (with_key x true k) p.0.token later p.1 ≡ (
          if ltb (timestamp p.0.expires_at) (timestamp later)
          then err (refused token_expired)
          else (if ltb later p.0.expires_at
              then ok (token_data r id nonce now p.0.expires_at)
              else err (refused token_not_found))))
      (ok_injective h4)
      (ap (◌>>= λ u. check_row true u later c) (check_signature-sign_token x law k t token signed)
        ∙ check_row-read t later c row (ltb later at)
            (get-create row later d c refl (ok_or_ok _ _ c stored)) refl)

-- What a token grants: what was asked for, until the expiry in whole seconds.
abbrev pub IsGrantOf : CreateTokenRequest → (id expires_at : ℕ) → TokenData → Type 0
IsGrantOf r id expires_at t =
    (t.token_id ≡ id)
    × (t.dataset_id ≡ r.dataset_id)
    × (t.node_id ≡ r.node_id)
    × (t.user_id ≡ r.user_id)
    × (t.scopes ≡ r.scopes)
    × (t.expires_at ≡ timestamp expires_at)

-- A token that was created is accepted, with what was asked for, until it expires, and then answered by "not
-- found" within the second of its expiry and by "expired" from the next second on.
pub create_token-verify_token :
    {K V J S : Type 0} (x : Crates K V J S) (has : Bool) (k : K) (r : CreateTokenRequest) (id : ℕ)
    (nonce : List ℕ) (now later : ℕ) (d d' : TokenTables) (response : TokenResponse S)
    → IsLawful x
    → create_token x (with_key x has k) r id nonce now d ≡ ok (response, d')
    → (t : TokenData) × IsGrantOf r id response.expires_at t
      × (verify_token x (with_key x has k) response.token later d' ≡ (
          if ltb (timestamp response.expires_at) (timestamp later)
          then err (refused token_expired)
          else (if ltb later response.expires_at then ok t else err (refused token_not_found))))
create_token-verify_token x has k r id nonce now later d d' response law h = (
  token_data r id nonce now response.expires_at,
  (refl, refl, refl, refl, refl, refl),
  create_token-answer x has k r id nonce now later d d' response law h,
)

-- A revoked row is not read.
select-revoked :
    (id now later : ℕ) (ts : List DataAccessToken)
    → select
        (is_read id later)
        (modify token_key id (λ t. some (record t { revoked_at = some now })) ts)
      ≡ []
unfolding select modify
select-revoked id now later [] = refl
select-revoked id now later (t ∷ ts) = elim (Bool-cases (t.id == id)) [
  | inl e ↦ rw (e, e) (select-revoked id now later ts)
  | inr e ↦ rw (e, e) (select-revoked id now later ts)
]

get-revoke :
    (id now later : ℕ) (d : TokenTables)
    → get_data_access_token id later (revoke_data_access_token id now d) ≡ none
unfolding get_data_access_token revoke_data_access_token
get-revoke id now later d = ap first_row (select-revoked id now later d.tokens)

-- After a revocation that succeeds, no text is accepted as a token of that identifier, whatever the service
-- and the time.
pub revoke_token-verify_token :
    {K V J S : Type 0} (x : Crates K V J S) (s s' : DataAccessTokenService K V)
    (id user now later : ℕ) (d d' : TokenTables) (token : S) (t : TokenData)
    → revoke_token s id user now d ≡ ok d'
    → verify_token x s' token later d' ≡ ok t
    → t.token_id ≢ id
unfolding verify_token revoke_token check_row
revoke_token-verify_token x s s' id user now later d d' token t h k same =
    let (_, _, h1) = bind_ok (need_metadata s.has_metadata) _ d' h in
    let (row, _, h2) =
      bind_ok (ok_or (get_data_access_token id now d) (refused token_not_found)) _ d' h1 in
    let (_, _, h3) = bind_ok (guard (row.user_id == user) (refused permission_denied)) _ d' h2 in
    let (t0, _, k1) = bind_ok (check_signature x s'.verifying_key token) _ t k in
    let (_, _, k2) =
      bind_ok (guard (not (ltb t0.expires_at (timestamp later))) (refused token_expired)) _ t k1 in
    let (_, _, k3) = bind_ok (need_metadata s'.has_metadata) _ t k2 in
    let (_, k4, k5) = bind_ok (accept (get_data_access_token t0.token_id later d')) _ t k3 in
    let unread : get_data_access_token t0.token_id later d' ≡ none =
      subst (λ c. get_data_access_token t0.token_id later c ≡ none) (ok_injective h3)
        (subst (λ i. get_data_access_token i later (revoke_data_access_token id now d) ≡ none)
          (sym (ap (λ (u : TokenData). u.token_id) (ok_injective k5) ∙ same))
          (get-revoke id now later d)) in
    absurd (ground (arith, subst (λ o. accept o ≡ ok tt) unread k4))

last_true : (a b c : Bool) → (a && (b && c)) ≡ true → c ≡ true
last_true a b c h = ground arith

get-cleanup :
    (id now later : ℕ) (d : TokenTables)
    → now ≤ later
    → get_data_access_token id later (cleanup_expired_tokens now d).1
      ≡ get_data_access_token id later d
unfolding get_data_access_token cleanup_expired_tokens
get-cleanup id now later d h = ap first_row (
    select-select (is_read id later) (λ t. not (is_long_expired now t)) d.tokens
      (λ t v. not_long_expired t.expires_at (last_true _ _ _ v)))
  where
    not_long_expired :
        (expires : ℕ) → ltb later expires ≡ true → not (ltb expires (now - 604800000000)) ≡ true
    not_long_expired expires v = ground (arith, h, v)

check_row-cleanup :
    (has : Bool) (t : TokenData) (now later : ℕ) (d : TokenTables)
    → now ≤ later
    → check_row has t later (cleanup_expired_tokens now d).1 ≡ check_row has t later d
unfolding check_row
check_row-cleanup has t now later d h = rw (get-cleanup t.token_id now later d h) refl

module _ {A B : Type 0} (e : Stop) where
  bind_never :
      (r : Result Stop A) (f : A → Result Stop B)
      → r ≢ err e
      → ((a : A) → f a ≢ err e)
      → (r >>= f) ≢ err e
  bind_never (err c) f h k p = h (ground (arith, p))
  bind_never (ok a) f h k p = k a p

guard_never : (b : Bool) (c e : Stop) → c ≢ e → guard b c ≢ err e
guard_never b c e h = ground (arith, h)

ok_or_never : {A : Type 0} (o : Option A) (c e : Stop) → c ≢ e → ok_or o c ≢ err e
ok_or_never o c e h = ground (arith, h)

check_row-never :
    (has : Bool) (t : TokenData) (now : ℕ) (d : TokenTables)
    → check_row has t now d ≢ err (refused token_revoked)
unfolding check_row
check_row-never has t now d =
    let e : Stop = refused token_revoked in
    bind_never e (guard _ (refused token_expired)) _ (guard_never _ _ e (λ p. ground (arith, p)))
      λ _. bind_never e (need_metadata has) _ (guard_never has _ e (λ p. ground (arith, p))) λ _.
        bind_never e (accept (get_data_access_token t.token_id now d)) _
          (accept_get t.token_id now d) λ _ p. ground (arith, p)

module _ {K V J S : Type 0} (x : Crates K V J S) (v : V) where
  check_signature-never : (token : S) → check_signature x v token ≢ err (refused token_revoked)
  unfolding check_signature decode_token
  check_signature-never token =
      let e : Stop = refused token_revoked in
      bind_never e (decode_token x token) _
        (bind_never e (ok_or (x.parse_base64 token) _) _
          (ok_or_never _ _ e (λ p. ground (arith, p)))
          λ json. ok_or_never _ _ e (λ p. ground (arith, p)))
        λ t.
          bind_never e (ok_or (x.data_json t.data_of) (refused invalid_token)) _
            (ok_or_never _ _ e (λ p. ground (arith, p)))
            λ bytes.
              bind_never e (guard (length t.signature == 64) (refused invalid_signature)) _
                (guard_never _ _ e (λ p. ground (arith, p)))
                λ _.
                  bind_never e (guard (x.verify v bytes t.signature) (refused invalid_signature)) _
                    (guard_never _ _ e (λ p. ground (arith, p))) λ _ p. ground (arith, p)

-- No call of verify_token gives the error "revoked", and rows that cleanup drops change no later answer.
pub cleanup_expired_tokens-verify_token :
    {K V J S : Type 0} (x : Crates K V J S) (s : DataAccessTokenService K V) (now later : ℕ)
    (d : TokenTables) (token : S)
    → now ≤ later
    → (verify_token x s token later (cleanup_expired_tokens now d).1
        ≡ verify_token x s token later d)
      × (verify_token x s token later d ≢ err (refused token_revoked))
unfolding verify_token
cleanup_expired_tokens-verify_token x s now later d token h = (
  ap (check_signature x s.verifying_key token >>=◌)
      (λ i t. check_row-cleanup s.has_metadata t now later d h i),
  bind_never (refused token_revoked) (check_signature x s.verifying_key token) _
      (check_signature-never x s.verifying_key token)
      (λ t. check_row-never s.has_metadata t later d),
)
