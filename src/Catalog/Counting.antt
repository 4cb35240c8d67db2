-- ===== src/Catalog/Counting.antt =====
-- The count of replicas of a chunk against its locations: no location goes uncounted.
use cyxcloud.Prelude.{
  ℕ, ◌+◌, ◌≤◌, Bool, true, false, not, ◌&&◌, String, Option, none, some, List, [], ◌∷◌, ◌≡◌, refl,
  sym, ap, ◌∙◌, subst, if◌then◌else◌, ◌==◌, ◌=?◌, number_key, pair_key, Bool-cases, inl, inr, arith,
}
use cyxcloud.Prelude.Assoc.{Map, get, get-insert}
use cyxcloud.Catalog.Counts.{
  one_if, count_keys, count_keys-insert, count_keys-insert_old, count_keys-remove,
}
use cyxcloud.Catalog.{Catalog, ChunkRow, LocationRow, bytes_key}
use cyxcloud.Catalog.Files.{change_chunk, update_chunk_status}
use cyxcloud.Catalog.Locations.{
  AddSteps, has_node, stored_row, insert_location, increment_row, increment_chunk_replicas,
  activate, add_chunk_location, remove_chunk_location, verify_row, change_location,
  update_chunk_verification,
}

-- The locations of a chunk.
abbrev pub locations_of : List ℕ → Catalog → ℕ
locations_of id c = count_keys (λ k. k.0 =? id) c.locations

-- Each chunk counts at least as many replicas as it has locations, but for so many.
abbrev pub IsCounted : (List ℕ → ℕ) → Catalog → Type 0
IsCounted missing c =
    (id : List ℕ) (k : ChunkRow)
    → get id c.chunks ≡ some k
    → locations_of id c ≤ k.current_replicas + missing id

pub data Event : Type 0 where
  added : AddSteps → List ℕ → ℕ → Event
  removed : List ℕ → ℕ → Event
  checked : List ℕ → ℕ → Bool → ℕ → Event
  marked : List ℕ → String → Event

abbrev pub apply : Event → Catalog → Catalog
apply (added s id node) c = (add_chunk_location s id node c).0
apply (removed id node) c = remove_chunk_location id node c
apply (checked id node valid now) c = update_chunk_verification id node valid now c
apply (marked id text) c = update_chunk_status id text c

abbrev pub run : List Event → Catalog → Catalog
run [] c = c
run (e ∷ es) c = run es (apply e c)

-- Whether an addition stores the location and then fails to count it.
abbrev pub is_broken_off : AddSteps → Bool
is_broken_off s = s.inserts && not s.counts

abbrev pub broken_by : Event → List ℕ → ℕ
broken_by (added s j node) id = one_if (is_broken_off s && (j =? id))
broken_by (removed j node) id = 0
broken_by (checked j node valid now) id = 0
broken_by (marked j text) id = 0

-- The additions of a chunk's locations that were broken off between their statements.
abbrev pub broken_additions : List Event → List ℕ → ℕ
broken_additions [] id = 0
broken_additions (e ∷ es) id = broken_by e id + broken_additions es id

-- The counts after a change of a chunk that keeps its count.
abbrev Replicas : ℕ → Option ChunkRow → ℕ → Type 0
Replicas m o n = (k : ChunkRow) → o ≡ some k → n ≤ k.current_replicas + m

some_le :
    (m : ℕ) (k j : ChunkRow) (n : ℕ)
    → some k ≡ some j
    → n ≤ k.current_replicas + m
    → n ≤ j.current_replicas + m
some_le m k j n e h = subst (λ (x : ChunkRow). n ≤ x.current_replicas + m) (inside e) h
  where
    or_k : Option ChunkRow → ChunkRow
    or_k none = k
    or_k (some x) = x

    inside : some k ≡ some j → k ≡ j
    inside p = ap or_k p

Replicas-if :
    (m : ℕ) (b : Bool) (k : ChunkRow) (o : Option ChunkRow) (n : ℕ)
    → (b ≡ true → n ≤ k.current_replicas + m)
    → (b ≡ false → Replicas m o n)
    → Replicas m (if b then some k else o) n
Replicas-if m true k o n h g j e = some_le m k j n e (h refl)
Replicas-if m false k o n h g j e = g refl j e

change_chunk-counted :
    (d : ℕ) (id j : List ℕ) (f : ChunkRow → ChunkRow) (o : Option ChunkRow)
    (m : Map (List ℕ) ChunkRow) (n : ℕ)
    → ((k : ChunkRow) → (f k).current_replicas ≡ k.current_replicas)
    → get id m ≡ o
    → Replicas d (get j m) n
    → Replicas d (get j (change_chunk id f o m)) n
change_chunk-counted d id j f none m n keeps e h = h
change_chunk-counted d id j f (some k) m n keeps e h =
    subst (λ o. Replicas d o n) (sym (get-insert id j (f k) m))
      (Replicas-if d (id =? j) (f k) (get j m) n
        (λ t.
          subst (λ x. n ≤ x + d) (sym (keeps k))
            (h k (ap (λ i. get i m) (sym ((bytes_key.same_iff id j).0 t)) ∙ e)))
        (λ t. h))

module _ (d : List ℕ → ℕ) where
  update_chunk_status-IsCounted :
      (id : List ℕ) (text : String) (c : Catalog)
      → IsCounted d c
      → IsCounted d (update_chunk_status id text c)
  unfolding update_chunk_status
  update_chunk_status-IsCounted id text c h j =
      change_chunk-counted (d j) id j (λ k. record k { status = text }) (get id c.chunks) c.chunks
        (locations_of j c) (λ k. refl) refl (h j)

  insert_location-le :
      (id j : List ℕ) (node : ℕ) (c : Catalog)
      → locations_of j (insert_location id node c) ≤ one_if (id =? j) + locations_of j c
  unfolding insert_location
  insert_location-le id j node c =
      count_keys-insert (λ x. x.0 =? j) (id, node) (stored_row id node (get (id, node) c.locations))
        c.locations

  -- A new location and the count of its chunk.
  increment_row-IsCounted :
      (id : List ℕ) (node : ℕ) (o : Option ChunkRow) (c : Catalog)
      → get id c.chunks ≡ o
      → IsCounted d c
      → IsCounted d (increment_row id o (insert_location id node c)).0
  unfolding insert_location
  increment_row-IsCounted id node none c e h j k p = elim (Bool-cases (id =? j)) [
    | inl t ↦
        absurd (ground (arith, e, p, ap (λ i. get i c.chunks) ((bytes_key.same_iff id j).0 t)))
    | inr t ↦
        let le = insert_location-le id j node c in
        let zero_if = ap one_if t in omega (arith, le, zero_if, h j k p)
  ]
  increment_row-IsCounted id node (some r) c e h j k p =
      let le = insert_location-le id j node c in
      let counted : Replicas (d j)
          (if id =? j
            then some (record r { current_replicas = r.current_replicas + 1 })
            else get j c.chunks)
          (locations_of j (insert_location id node c)) =
        Replicas-if (d j) (id =? j) _ (get j c.chunks) _
          (λ t. omega (
            arith,
            le,
            ap one_if t,
            h j r (ap (λ i. get i c.chunks) (sym ((bytes_key.same_iff id j).0 t)) ∙ e),
          ))
          (λ t x q. omega (arith, le, ap one_if t, h j x q)) in
      counted k (
        sym (get-insert id j (record r { current_replicas = r.current_replicas + 1 }) c.chunks) ∙ p)

  activate-IsCounted :
      (marks : Bool) (id : List ℕ) (r : Catalog × Option ℕ)
      → IsCounted d r.0
      → IsCounted d (activate marks id r).0
  activate-IsCounted marks id (c, none) h = h
  activate-IsCounted marks id (c, some n) h = go (n == 1) marks
    where
      go :
          (b m : Bool)
          → let out : Catalog × Bool =
              if b
              then (if m then (update_chunk_status id "active" c, true) else (c, false))
              else (c, true) in
            IsCounted d out.0
      go true true = update_chunk_status-IsCounted id "active" c h
      go true false = h
      go false m = h

  -- What is stored without being counted is missing from then on.
  weaken-IsCounted : (n : List ℕ → ℕ) (c : Catalog) → IsCounted d c → IsCounted (λ j. d j + n j) c
  weaken-IsCounted n c h j k p = omega (arith, h j k p)

  insert_location-IsCounted :
      (id : List ℕ) (node : ℕ) (c : Catalog)
      → IsCounted d c
      → IsCounted (λ j. d j + one_if (id =? j)) (insert_location id node c)
  unfolding insert_location
  insert_location-IsCounted id node c h j k p =
      omega (arith, insert_location-le id j node c, h j k p)

  add_chunk_location-IsCounted :
      (s : AddSteps) (id : List ℕ) (node : ℕ) (c : Catalog)
      → IsCounted d c
      → IsCounted (λ j. d j + broken_by (added s id node) j) (add_chunk_location s id node c).0
  unfolding add_chunk_location increment_chunk_replicas insert_location
  add_chunk_location-IsCounted s id node c h =
      by_steps s.inserts s.counts (has_node node c.nodes)
        (activate s.marks id (increment_row id (get id c.chunks) (insert_location id node c)))
        (activate-IsCounted s.marks id
          (increment_row id (get id c.chunks) (insert_location id node c))
          (increment_row-IsCounted id node (get id c.chunks) c refl h))
    where
      by_steps :
          (i n b : Bool) (x : Catalog × Bool)
          → IsCounted d x.0
          → let counting : Catalog × Bool = if n then x else (insert_location id node c, false) in
            let out : Catalog × Bool = if i && b then counting else (c, false) in
            IsCounted (λ j. d j + one_if ((i && not n) && (id =? j))) out.0
      by_steps true true true x k = weaken-IsCounted _ x.0 k
      by_steps true false true x k = insert_location-IsCounted id node c h
      by_steps true n false x k = weaken-IsCounted _ c h
      by_steps false n b x k = weaken-IsCounted _ c h

change_location-le :
    (test : List ℕ × ℕ → Bool) (k : List ℕ × ℕ) (f : LocationRow → LocationRow)
    (o : Option LocationRow) (m : Map (List ℕ × ℕ) LocationRow)
    → get k m ≡ o
    → count_keys test (change_location k f o m) ≤ count_keys test m
change_location-le test k f none m e = omega arith
change_location-le test k f (some r) m e = count_keys-insert_old test k (f r) r m e

module _ (d : List ℕ → ℕ) where
  remove_chunk_location-IsCounted :
      (id : List ℕ) (node : ℕ) (c : Catalog)
      → IsCounted d c
      → IsCounted d (remove_chunk_location id node c)
  unfolding remove_chunk_location
  remove_chunk_location-IsCounted id node c h j k p =
      omega (arith, count_keys-remove (λ x. x.0 =? j) (id, node) c.locations, h j k p)

  update_chunk_verification-IsCounted :
      (id : List ℕ) (node : ℕ) (valid : Bool) (now : ℕ) (c : Catalog)
      → IsCounted d c
      → IsCounted d (update_chunk_verification id node valid now c)
  unfolding update_chunk_verification
  update_chunk_verification-IsCounted id node valid now c h j k p = omega (
    arith,
    change_location-le (λ x. x.0 =? j) (id, node) (verify_row valid now)
        (get (id, node) c.locations) c.locations refl,
    h j k p,
  )

  apply-IsCounted :
      (e : Event) (c : Catalog) → IsCounted d c → IsCounted (λ j. d j + broken_by e j) (apply e c)
  apply-IsCounted (added s id node) c h = add_chunk_location-IsCounted d s id node c h
  apply-IsCounted (removed id node) c h =
      weaken-IsCounted d (λ j. 0) (remove_chunk_location id node c)
        (remove_chunk_location-IsCounted id node c h)
  apply-IsCounted (checked id node valid now) c h =
      weaken-IsCounted d (λ j. 0) (update_chunk_verification id node valid now c)
        (update_chunk_verification-IsCounted id node valid now c h)
  apply-IsCounted (marked id text) c h =
      weaken-IsCounted d (λ j. 0) (update_chunk_status id text c)
        (update_chunk_status-IsCounted d id text c h)

run_from :
    (es : List Event) (d : List ℕ → ℕ) (c : Catalog)
    → IsCounted d c
    → IsCounted (λ j. d j + broken_additions es j) (run es c)
run_from [] d c h j k p = weaken-IsCounted d (λ j. 0) c h j k p
run_from (e ∷ es) d c h j k p =
    omega
      (arith, run_from es (λ i. d i + broken_by e i) (apply e c) (apply-IsCounted d e c h) j k p)

-- Whatever locations are added, removed and verified, whatever statuses are set and whichever statements
-- fail: where each chunk counted at least as many replicas as it had locations, it does so afterwards, but
-- for the additions that were broken off between storing the location and counting it.
pub run-IsCounted :
    (es : List Event) (c : Catalog)
    → IsCounted (λ j. 0) c
    → IsCounted (broken_additions es) (run es c)
run-IsCounted es c h j k p = omega (arith, run_from es (λ i. 0) c h j k p)
