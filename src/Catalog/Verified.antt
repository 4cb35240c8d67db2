-- ===== src/Catalog/Verified.antt =====
-- What verification does to a location, and the life of a file record.
use cyxcloud.Prelude.{
  ℕ, zero, suc, ◌+◌, Bool, true, false, ◌&&◌, Option, none, some, List, [], ◌∷◌, ◌++◌, map, ◌≡◌,
  ◌≢◌, refl, sym, ap, ◌∙◌, subst, if◌then◌else◌, leb, ◌==◌, ◌=?◌, =?_refl, ne_of_=?, number_key,
  pair_key, All, Unique, Bool-cases, inl, inr, arith,
}
use cyxcloud.Prelude.Rows.{select}
use cyxcloud.Prelude.Assoc.{Map, get, insert, get-insert}
use cyxcloud.Lifecycle.{LocationStatus, verified, failed, is_stored}
use cyxcloud.Catalog.{Catalog, File, CreateFile, LocationRow, bytes_key}
use cyxcloud.Catalog.Files.{
  create_file, get_file, new_file, or_generated, is_live, has_file, first_row,
}
use cyxcloud.Catalog.Locations.{
  is_at, get_chunk_locations, verify_row, change_location, update_chunk_verification,
}

-- A verification that fails so many times, one after another.
abbrev pub fail_times : ℕ → List ℕ → ℕ → ℕ → Catalog → Catalog
fail_times zero id node now c = c
fail_times (suc n) id node now c =
    fail_times n id node now (update_chunk_verification id node false now c)

get_changed :
    (id : List ℕ) (node : ℕ) (valid : Bool) (now : ℕ) (c : Catalog) (r : LocationRow)
    → get (id, node) c.locations ≡ some r
    → get (id, node) (update_chunk_verification id node valid now c).locations
      ≡ some (verify_row valid now r)
unfolding update_chunk_verification
get_changed id node valid now c r h =
    ap (λ o. get (id, node) (change_location (id, node) (verify_row valid now) o c.locations)) h
    ∙ get-insert (id, node) (id, node) (verify_row valid now r) c.locations
    ∙ ap (λ b. if b then some (verify_row valid now r) else get (id, node) c.locations)
        (=?_refl {A = List ℕ × ℕ} (id, node))

abbrev status_after : ℕ → ℕ → LocationStatus → LocationStatus
status_after n failures status =
    if n == 0 then status else if leb 3 (failures + n) then failed else status

failed_after :
    (n failures : ℕ) (t : LocationStatus)
    → status_after n (failures + 1) (if leb 2 failures then failed else t)
      ≡ status_after (suc n) failures t
failed_after n failures t = ground arith

fail_times_row :
    (n : ℕ) (id : List ℕ) (node now : ℕ) (c : Catalog) (r : LocationRow)
    → get (id, node) c.locations ≡ some r
    → (s : LocationRow) × (get (id, node) (fail_times n id node now c).locations ≡ some s)
      × (s.status ≡ status_after n r.verification_failures r.status)
fail_times_row zero id node now c r h = (r, h, refl)
fail_times_row (suc n) id node now c r h =
    let (s, e, f) =
      fail_times_row n id node now (update_chunk_verification id node false now c)
        (verify_row false now r) (get_changed id node false now c r h) in
    (s, e, f ∙ failed_after n r.verification_failures r.status)

-- A location without failures that is verified first, and whose verification then fails so many times, is
-- marked as failed from the third failure on, and as verified before.
pub verification_outcome :
    (n : ℕ) (id : List ℕ) (node now later : ℕ) (c : Catalog) (r : LocationRow)
    → get (id, node) c.locations ≡ some r
    → let c' = fail_times n id node later (update_chunk_verification id node true now c) in
      (s : LocationRow) × (get (id, node) c'.locations ≡ some s)
      × (s.status ≡ (if leb 3 n then failed else verified))
verification_outcome n id node now later c r h =
    let (s, e, f) =
      fail_times_row n id node later (update_chunk_verification id node true now c)
        (verify_row true now r) (get_changed id node true now c r h) in
    (s, e, f ∙ from_zero n)
  where
    from_zero : (k : ℕ) → status_after k 0 verified ≡ (if leb 3 k then failed else verified)
    from_zero k = ground arith

-- The key of an entry is that of its row.
abbrev pub IsKeyed : (List ℕ × ℕ) × LocationRow → Type 0
IsKeyed p = p.0 ≡ (p.1.chunk_id, p.1.node_id)

abbrev pub location_key : (List ℕ × ℕ) × LocationRow → List ℕ × ℕ
location_key p = p.0

both_true : (a b : Bool) → (a && b) ≡ true → a ≡ true
both_true a b h = ground arith

module _ (id : List ℕ) (node : ℕ) where
  abbrev IsElsewhere : LocationRow → Type 0
  IsElsewhere r = r.node_id ≢ node

  -- A row that a read of the chunk gives is of another node, unless its key is the one.
  elsewhere :
      (k : List ℕ × ℕ) (r : LocationRow)
      → k ≡ (r.chunk_id, r.node_id)
      → k ≢ (id, node)
      → is_at id r ≡ true
      → IsElsewhere r
  elsewhere k r e n t m =
      let here = (bytes_key.same_iff r.chunk_id id).0 (both_true _ _ t) in
      n (e ∙ (λ i. (here i, m i)))

  keep-IsElsewhere :
      (r : LocationRow) (rs : List LocationRow)
      → (is_at id r ≡ true → IsElsewhere r)
      → All IsElsewhere (select (is_at id) rs)
      → All IsElsewhere (select (is_at id) (r ∷ rs))
  unfolding select
  keep-IsElsewhere r rs h k = elim (Bool-cases (is_at id r)) [
    | inl t ↦ rw t (h t, k)
    | inr t ↦ rw t k
  ]

  All-IsElsewhere :
      (m : Map (List ℕ × ℕ) LocationRow)
      → All IsKeyed m
      → All (λ p. location_key p ≢ (id, node)) m
      → All IsElsewhere (select (is_at id) (map (λ p. p.1) m))
  unfolding select
  All-IsElsewhere [] h u = tt
  All-IsElsewhere ((k, r) ∷ m) h u =
      keep-IsElsewhere r (map (λ p. p.1) m) (elsewhere k r h.0 u.0) (All-IsElsewhere m h.1 u.1)

  not_stored : (a : Bool) (r : LocationRow) → (a && is_stored verified) ≡ true → IsElsewhere r
  not_stored true r h = absurd (ground arith)
  not_stored false r h = absurd (ground arith)

  insert_hidden :
      (now : ℕ) (r : LocationRow) (m : Map (List ℕ × ℕ) LocationRow)
      → All IsKeyed m
      → Unique location_key m
      → All IsElsewhere
          (select (is_at id) (map (λ p. p.1) (insert (id, node) (verify_row true now r) m)))
  unfolding insert
  insert_hidden now r [] h u =
      keep-IsElsewhere (verify_row true now r) [] (not_stored _ (verify_row true now r))
        (unfold select in tt)
  insert_hidden now r ((k, x) ∷ m) h u = elim (Bool-cases (k =? (id, node))) [
    | inl t ↦ rw t (
        keep-IsElsewhere (verify_row true now r) (map (λ p. p.1) m)
          (not_stored _ (verify_row true now r))
          (All-IsElsewhere m h.1 (
            subst (λ j. All (λ p. location_key p ≢ j) m) ((pair_key.same_iff k (id, node)).0 t)
              u.0)))
    | inr t ↦ rw t (
        keep-IsElsewhere x (map (λ p. p.1) (insert (id, node) (verify_row true now r) m))
          (elsewhere k x h.0 (ne_of_=? k (id, node) t)) (insert_hidden now r m h.1 u.1))
  ]

-- Once a location has been verified, reads of its chunk no longer give it, since they ask for the status
-- "stored" and verification sets "verified".
pub verification_hides :
    (id : List ℕ) (node now : ℕ) (c : Catalog) (r : LocationRow)
    → All IsKeyed c.locations
    → Unique location_key c.locations
    → get (id, node) c.locations ≡ some r
    → All
        (λ (s : LocationRow). s.node_id ≢ node)
        (get_chunk_locations id (update_chunk_verification id node true now c))
unfolding get_chunk_locations update_chunk_verification
verification_hides id node now c r h u e =
    subst
      (λ o.
        All (λ (s : LocationRow). s.node_id ≢ node)
          (select (is_at id)
            (map (λ p. p.1) (change_location (id, node) (verify_row true now) o c.locations))))
      (sym e) (insert_hidden id node now r c.locations h u)

-- The first file of an identifier, where the identifier is new.
module _ (test : File → Bool) where
  select_append :
      (fs : List File) (f : File)
      → select test (fs ++ (f ∷ [])) ≡ select test fs ++ (if test f then f ∷ [] else [])
  unfolding select
  select_append [] f = refl
  select_append (g ∷ fs) f = elim (Bool-cases (test g)) [
    | inl t ↦ rw t (ap (g ∷◌) (select_append fs f))
    | inr t ↦ rw t (select_append fs f)
  ]

no_file :
    (id : ℕ) (fs : List File)
    → has_file id fs ≡ false
    → select (λ (f : File). (f.id == id) && is_live f) fs ≡ []
unfolding select
no_file id [] h = refl
no_file id (f ∷ fs) h = elim (Bool-cases (f.id == id)) [
  | inl t ↦ absurd (ground (arith, h, t))
  | inr t ↦ rw t (no_file id fs (subst (λ b. (if b then true else has_file id fs) ≡ false) t h))
]

module _ (id : ℕ) where
  abbrev is_live_file : File → Bool
  is_live_file f = (f.id == id) && is_live f

some_catalog : (c d : Catalog) → some c ≡ some d → c ≡ d
some_catalog c d h = ap (λ (o : Option Catalog). elim o [ none ↦ c | some x ↦ x ]) h

created : (b : Bool) (c d : Catalog) → (if b then none else some c) ≡ some d → (b ≡ false) × (c ≡ d)
created true c d h = absurd (ground arith)
created false c d h = (refl, some_catalog c d h)

append_nil : {A : Type 0} (xs : List A) → xs ++ [] ≡ xs
append_nil [] = refl
append_nil (x ∷ xs) = ap (x ∷◌) (append_nil xs)

-- The row of a new file: the columns of the request under the identifier, pending and not deleted.
abbrev pub IsNewRow : CreateFile → ℕ → File → Type 0
IsNewRow f id row =
    (row.id ≡ id)
    × (row.name ≡ f.name)
    × (row.path ≡ f.path)
    × (row.content_hash ≡ f.content_hash)
    × (row.size_bytes ≡ f.size_bytes)
    × (row.chunk_count ≡ f.chunk_count)
    × (row.data_shards ≡ f.data_shards)
    × (row.parity_shards ≡ f.parity_shards)
    × (row.chunk_size ≡ f.chunk_size)
    × (row.owner_id ≡ f.owner_id)
    × (row.bucket ≡ f.bucket)
    × (row.content_type ≡ f.content_type)
    × (row.metadata ≡ f.metadata)
    × (row.status ≡ "pending")
    × (row.deleted_at ≡ none)

-- A file that is created is read by its identifier as a row with every column of the request, pending and
-- not deleted, and no other file is read differently.
pub create_file-get_file :
    (f : CreateFile) (generated : ℕ) (c c' : Catalog)
    → create_file f generated c ≡ some c'
    → ((row : File) × (get_file (or_generated f.id generated) c' ≡ some row)
        × IsNewRow f (or_generated f.id generated) row)
      × ((other : ℕ) → or_generated f.id generated ≢ other → get_file other c' ≡ get_file other c)
unfolding create_file get_file
create_file-get_file f generated c c' h =
    let id = or_generated f.id generated in
    let new = new_file f generated in
    let (absent, e) =
      created (has_file id c.files) (record c { files = c.files ++ (new ∷ []) }) c' h in
    let read : (k : ℕ) (b : Bool)
        → ((id == k) && true) ≡ b
        → select (is_live_file k) c'.files
          ≡ select (is_live_file k) c.files ++ (if b then new ∷ [] else []) =
      λ k b t.
        ap (λ (d : Catalog). select (is_live_file k) d.files) (sym e)
        ∙ select_append (is_live_file k) c.files new
        ∙ ap (λ x. select (is_live_file k) c.files ++ (if x then new ∷ [] else [])) t in
    (
      (
        new,
        ap first_row
            (read id true (ground arith) ∙ ap (λ xs. xs ++ (new ∷ [])) (no_file id c.files absent)),
        (refl, refl, refl, refl, refl, refl, refl, refl, refl, refl, refl, refl, refl, refl, refl),
      ),
      λ other n.
          ap first_row (
            read other false (ground (arith, n))
            ∙ append_nil (select (is_live_file other) c.files)),
    )
