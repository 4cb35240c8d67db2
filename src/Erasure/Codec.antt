-- ===== src/Erasure/Codec.antt =====
-- The crate `reed_solomon_erasure`, as erasure.rs uses it: its operations, and what its documentation
-- says of them for `d` data and `p` parity shards.
use cyxcloud.Prelude.{
  ℕ, ◌+◌, ◌≤◌, ◌<◌, ◌≡◌, Bool, true, Option, none, some, List, [], ◌∷◌, ◌++◌, map, String,
}
use cyxcloud.Prelude.Slices.{HasShape, count_some}
use cyxcloud.Prelude.Results.{Result, ok}

abbrev pub Bytes : Type 0
Bytes = List ℕ

pub record ReedSolomon : Type 0 where
  -- `encode` fills in the parity shards of the list, `reconstruct` the missing shards.
  pub encode : List Bytes → Result String (List Bytes)
  pub reconstruct : List (Option Bytes) → Result String (List (Option Bytes))
  pub verify : List Bytes → Result String Bool

-- The second list is the first with some entries lost.
unfoldable pub Loses : {A : Type 0} → List A → List (Option A) → Type 0
Loses [] [] = Unit
Loses [] (o ∷ os) = ⊥
Loses (a ∷ as_) [] = ⊥
Loses (a ∷ as_) (none ∷ os) = Loses as_ os
Loses (a ∷ as_) (some b ∷ os) = (a ≡ b) × Loses as_ os

pub record IsLawful (rs : ReedSolomon) (d p : ℕ) : Type 0 where
  -- Between 1 and 256 shards in all, with some of each kind.
  pub some_data : 0 < d
  pub some_parity : 0 < p
  pub in_field : d + p ≤ 256
  -- Shards of one positive size can be encoded, which keeps the data shards and the sizes.
  pub encodes :
      (n : ℕ) (data_ parity : List Bytes)
      → 0 < n
      → HasShape d n data_
      → HasShape p n parity
      → (parity' : List Bytes) × (rs.encode (data_ ++ parity) ≡ ok (data_ ++ parity'))
        × HasShape p n parity'
  -- What `encode` gave is restored from any `d` of its shards.
  pub reconstructs :
      (n : ℕ) (data_ parity encoded : List Bytes) (left : List (Option Bytes))
      → 0 < n
      → HasShape d n data_
      → HasShape p n parity
      → rs.encode (data_ ++ parity) ≡ ok encoded
      → Loses encoded left
      → d ≤ count_some left
      → rs.reconstruct left ≡ ok (map some encoded)
  -- What `encode` gave is verified.
  pub verifies :
      (n : ℕ) (data_ parity encoded : List Bytes)
      → 0 < n
      → HasShape d n data_
      → HasShape p n parity
      → rs.encode (data_ ++ parity) ≡ ok encoded
      → rs.verify encoded ≡ ok true
