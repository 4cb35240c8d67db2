-- ===== src/Lifecycle/Evacuation.antt =====
-- The repair jobs that empty a node, and what they prevent.
use mathlib.Core.List.{Memᴰ}
use mathlib.Core.List.Memᴰ.{head, tail}
use cyxcloud.Prelude.{
  ℕ, suc, ◌%◌, Bool, true, false, not, ◌&&◌, Bool-cases, inl, inr, Option, none, some, List, [],
  ◌∷◌, ◌++◌, ◌≡◌, ◌≢◌, refl, sym, ap, ◌∙◌, zero, subst, ◌<◌, length, get_elem?, map, length-map,
  All, All-imp, ◌==◌, if◌then◌else◌, arith,
}
use cyxcloud.Prelude.Rows.{select, All-of_select}
use cyxcloud.Prelude.Parts.{Part, select-Part}
use cyxcloud.Prelude.Sorting.{All-sort_by}
use cyxcloud.Rebalancer.Targets.{All-Mem}
use cyxcloud.Lifecycle.{
  NodeStatus, LocationStatus, online, stored, is_online, is_stored, Node, ChunkLocation, RepairJob,
  Database, is_referenced, delete_node, get_chunks_on_node, get_online_nodes,
}
use cyxcloud.Lifecycle.Monitor.{EvacuationStep, job_for, evacuation_jobs, trigger_chunk_evacuation}

-- Away from the node, to another node of the table that is online.
abbrev pub IsEvacuation : ℕ → Database → RepairJob → Type 0
IsEvacuation id db j =
    (j.source_node_id ≡ some id)
    × (j.priority ≡ 100)
    × ((n : Node) × Memᴰ n db.nodes × (n.id ≡ j.target_node_id) × (n.status ≡ online) × (n.id ≢ id))

some_inj : {A : Type 0} {a b : A} → some a ≡ some b → a ≡ b
some_inj h = ground arith

All-get_elem? :
    {A : Type 0} (P : A → Type 0) (xs : List A) (i : ℕ) (a : A)
    → All P xs
    → get_elem? xs i ≡ some a
    → P a
All-get_elem? P [] i a h e = absurd (ground arith)
All-get_elem? P (x ∷ xs) zero a h e = subst P (some_inj e) h.0
All-get_elem? P (x ∷ xs) (suc i) a h e = All-get_elem? P xs i a h.1 e

get_elem?_lt :
    {A : Type 0} (xs : List A) (i : ℕ) → i < length xs → (a : A) × (get_elem? xs i ≡ some a)
get_elem?_lt [] i h = absurd (omega arith)
get_elem?_lt (x ∷ xs) zero h = (x, refl)
get_elem?_lt (x ∷ xs) (suc i) h = get_elem?_lt xs i (omega arith)

-- The other online nodes.
abbrev pub targets_of : ℕ → Database → List Node
targets_of id db = select (λ n. not (n.id == id)) (get_online_nodes db)

different : (a b : ℕ) → not (a == b) ≡ true → a ≢ b
different a b h = ground arith

only_online : (s : NodeStatus) → is_online s ≡ true → s ≡ online
only_online s h = ground arith

only_stored : (s : LocationStatus) → is_stored s ≡ true → s ≡ stored
only_stored s h = ground arith

both_true : (a b : Bool) → (a && b) ≡ true → (a ≡ true) × (b ≡ true)
both_true a b h = ground arith

equal_numbers : (a b : ℕ) → (a == b) ≡ true → a ≡ b
equal_numbers a b h = ground arith

-- Another node of the table, which is online.
abbrev IsOther : ℕ → Database → Node → Type 0
IsOther id db n = Memᴰ n db.nodes × (n.status ≡ online) × (n.id ≢ id)

targets_of-All : (id : ℕ) (db : Database) → All (IsOther id db) (targets_of id db)
unfolding get_online_nodes
targets_of-All id db =
    All-imp (λ n (h, t). (h.0, only_online n.status h.1, different n.id id t)) (targets_of id db)
      (All-of_select _ (λ n. not (n.id == id)) (get_online_nodes db)
        (All-sort_by _ _ (select (λ (n : Node). is_online n.status) db.nodes)
          (All-of_select _ (λ n. is_online n.status) db.nodes (All-Mem db.nodes))))

Mem-select :
    {A : Type 0} (test : A → Bool) (a : A) (xs : List A)
    → Memᴰ a xs
    → test a ≡ true
    → Memᴰ a (select test xs)
unfolding select
Mem-select test a [] m t = elim m [ ]
Mem-select test a (x ∷ xs) (head e) t =
    subst (λ b. Memᴰ a (if b then x ∷ select test xs else select test xs))
      (sym (ap test (sym e) ∙ t)) (head e)
Mem-select test a (x ∷ xs) (tail m) t = elim (Bool-cases (test x)) [
  | inl h ↦ rw h (tail (Mem-select test a xs m t))
  | inr h ↦ rw h (Mem-select test a xs m t)
]

-- The location is on the node, and stored.
abbrev pub IsStoredOn : ℕ → ChunkLocation → Type 0
IsStoredOn id l = (l.node_id ≡ id) × (l.status ≡ stored)

get_chunks_on_node-IsStoredOn :
    (id : ℕ) (db : Database) → All (IsStoredOn id) (get_chunks_on_node id db)
unfolding get_chunks_on_node
get_chunks_on_node-IsStoredOn id db =
    All-imp
      (λ l (_, t).
        let (a, b) = both_true (l.node_id == id) (is_stored l.status) t in
        (equal_numbers l.node_id id a, only_stored l.status b))
      _
      (All-of_select _ (λ l. (l.node_id == id) && is_stored l.status) db.chunk_locations
        (All-Mem db.chunk_locations))

get_chunks_on_node-all :
    (id : ℕ) (db : Database) (l : ChunkLocation)
    → Memᴰ l db.chunk_locations
    → IsStoredOn id l
    → Memᴰ l (get_chunks_on_node id db)
unfolding get_chunks_on_node
get_chunks_on_node-all id db l m (a, b) =
    Mem-select (λ l. (l.node_id == id) && is_stored l.status) l db.chunk_locations m
      (passes l.node_id l.status a b)
  where
    passes : (n : ℕ) (s : LocationStatus) → n ≡ id → s ≡ stored → ((n == id) && is_stored s) ≡ true
    passes n s h k = ground (arith, h, k)

module _ (creates : ℕ → Bool) (id : ℕ) (db : Database) (targets : List Node)
    (apart : All (IsOther id db) targets) where
  job_for-All :
      (b : Bool) (o : Option Node) (c : ChunkLocation) (rest : List RepairJob)
      → ((t : Node) → o ≡ some t → IsOther id db t)
      → All (IsEvacuation id db) rest
      → All (IsEvacuation id db) (job_for b id o c rest)
  job_for-All true (some t) c rest h a =
      let (m, s, d) = h t refl in ((refl, refl, (t, m, refl, s, d)), a)
  job_for-All true none c rest h a = a
  job_for-All false o c rest h a = a

  jobs-All :
      (cs : List ChunkLocation) (i : ℕ)
      → All (IsEvacuation id db) (evacuation_jobs creates id targets i cs)
  unfolding evacuation_jobs
  jobs-All [] i = tt
  jobs-All (c ∷ cs) i =
      job_for-All (creates i) (get_elem? targets (i % length targets)) c _
        (λ t e. All-get_elem? (IsOther id db) targets (i % length targets) t apart e)
        (jobs-All cs (suc i))

  job_for-chunk :
      (b : Bool) (o : Option Node) (t : Node) (c : ChunkLocation) (rest : List RepairJob)
      → b ≡ true
      → o ≡ some t
      → map (λ j. j.chunk_id) (job_for b id o c rest) ≡ c.chunk_id ∷ map (λ j. j.chunk_id) rest
  job_for-chunk b o t c rest h e = λ i. map (λ j. j.chunk_id) (paths i)
    where
      paths : job_for b id o c rest ≡ job_for true id (some t) c rest
      paths = λ i. job_for (h i) id (e i) c rest

  jobs-chunks :
      (cs : List ChunkLocation) (i : ℕ)
      → ((i : ℕ) → creates i ≡ true)
      → 0 < length targets
      → map (λ j. j.chunk_id) (evacuation_jobs creates id targets i cs) ≡ map (λ c. c.chunk_id) cs
  unfolding evacuation_jobs
  jobs-chunks [] i h p = refl
  jobs-chunks (c ∷ cs) i h p =
      let (t, e) = get_elem?_lt targets (i % length targets) (omega arith) in
      job_for-chunk (creates i) _ t c _ (h i) e ∙ ap (c.chunk_id ∷◌) (jobs-chunks cs (suc i) h p)

is_referenced-append :
    (id : ℕ) (js ks : List RepairJob)
    → is_referenced id ks ≡ true
    → is_referenced id (js ++ ks) ≡ true
unfolding is_referenced
is_referenced-append id [] ks h = h
is_referenced-append id (j ∷ js) ks h = ground (arith, is_referenced-append id js ks h)

is_referenced_of_All :
    (id : ℕ) (db : Database) (js : List RepairJob)
    → All (IsEvacuation id db) js
    → 0 < length js
    → is_referenced id js ≡ true
unfolding is_referenced
is_referenced_of_All id db [] h p = absurd (omega arith)
is_referenced_of_All id db (j ∷ js) h p = ground (arith, h.0)

module _ (e : EvacuationStep) (id : ℕ) (db : Database) (a : e.chunks_asked ≡ true)
    (b : e.nodes_asked ≡ true) (h : (i : ℕ) → e.creates i ≡ true)
    (p : 0 < length (targets_of id db)) where
  new_jobs : List RepairJob
  new_jobs = evacuation_jobs e.creates id (targets_of id db) 0 (get_chunks_on_node id db)

  triggered :
      trigger_chunk_evacuation e id db ≡ record db { repair_jobs = db.repair_jobs ++ new_jobs }
  unfolding trigger_chunk_evacuation new_jobs
  triggered = λ i. if a i && b i then record db { repair_jobs = db.repair_jobs ++ new_jobs } else db

  new_jobs-chunks :
      map (λ j. j.chunk_id) new_jobs ≡ map (λ c. c.chunk_id) (get_chunks_on_node id db)
  unfolding new_jobs
  new_jobs-chunks =
      jobs-chunks e.creates id db (targets_of id db) (targets_of-All id db)
        (get_chunks_on_node id db) 0 h p

  new_jobs-All : All (IsEvacuation id db) new_jobs
  unfolding new_jobs
  new_jobs-All =
      jobs-All e.creates id db (targets_of id db) (targets_of-All id db) (get_chunks_on_node id db)
        0

  -- Where all its statements go through and another node is online, an evacuation adds one repair job for each
  -- location that it reads, in their order, from the node to another node of the table that is online. The
  -- locations that it reads are those of the table that are on the node and stored, all of them and no others.
  pub trigger_chunk_evacuation_lem :
      (jobs : List RepairJob) × ((trigger_chunk_evacuation e id db).repair_jobs
        ≡ db.repair_jobs ++ jobs)
      × (map (λ j. j.chunk_id) jobs ≡ map (λ c. c.chunk_id) (get_chunks_on_node id db))
      × All (IsEvacuation id db) jobs
      × Part (get_chunks_on_node id db) db.chunk_locations
      × All (IsStoredOn id) (get_chunks_on_node id db)
      × ((l : ChunkLocation)
          → Memᴰ l db.chunk_locations
          → IsStoredOn id l
          → Memᴰ l (get_chunks_on_node id db))
  unfolding get_chunks_on_node
  trigger_chunk_evacuation_lem = (
    new_jobs,
    ap (λ (d : Database). d.repair_jobs) triggered,
    new_jobs-chunks,
    new_jobs-All,
    select-Part (λ l. (l.node_id == id) && is_stored l.status) db.chunk_locations,
    get_chunks_on_node-IsStoredOn id db,
    get_chunks_on_node-all id db,
  )

  as_many : length new_jobs ≡ length (get_chunks_on_node id db)
  as_many =
      sym (length-map new_jobs (λ j. j.chunk_id))
      ∙ ap length new_jobs-chunks
      ∙ length-map (get_chunks_on_node id db) (λ c. c.chunk_id)

  not_deleted :
      (js : List RepairJob)
      → is_referenced id js ≡ true
      → delete_node id (record db { repair_jobs = js }) ≡ none
  unfolding delete_node
  not_deleted js r = rw r refl

  -- After such an evacuation of a node that holds a chunk the deletion of the node fails, since the new
  -- repair jobs refer to it.
  pub evacuation_blocks_deletion :
      0 < length (get_chunks_on_node id db)
      → delete_node id (trigger_chunk_evacuation e id db) ≡ none
  evacuation_blocks_deletion l =
      ap (delete_node id) triggered
      ∙ not_deleted (db.repair_jobs ++ new_jobs) (
          is_referenced-append id db.repair_jobs new_jobs
            (is_referenced_of_All id db new_jobs new_jobs-All (omega (arith, as_many))))
