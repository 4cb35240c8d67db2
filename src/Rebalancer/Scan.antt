-- ===== src/Rebalancer/Scan.antt =====
-- What a scan reports.
use cyxcloud.Prelude.{
  ℕ, Bool, true, false, ◌&&◌, ◌||◌, String, some, List, [], ◌∷◌, ◌≡◌, refl, sym, ap, ◌∙◌, subst,
  length, All, if◌then◌else◌, is_empty, ◌=?◌, string_key, arith,
}
use cyxcloud.Prelude.Rows.{select}
use cyxcloud.Prelude.Results.{Result, ok, err, bind_ok, ok_injective}
use cyxcloud.Prelude.Floats.{Floats}
use cyxcloud.Rebalancer.Planner.{Planner, NodeInfo, plan_repair, no_source_nodes}
use cyxcloud.Error.{Outcome}
use cyxcloud.Rebalancer.Detector.{
  ChunkIssue, critical, under_replicated, calculate_priority, NodeAvailability, or_unavailable,
  can_read, ChunkInfo, Clients, Detector, DetectorConfig, ScanResult, check_nodes, contains,
  issue_of, issues_of, scan, scan_nodes, scan_chunks, finish_scan,
}

-- Two lists of the same length whose elements are related one by one.
abbrev pub Each : {A B : Type 0} → (A → B → Type 0) → List A → List B → Type 0
Each R [] [] = Unit
Each R [] (y ∷ ys) = ⊥
Each R (x ∷ xs) [] = ⊥
Each R (x ∷ xs) (y ∷ ys) = R x y × Each R xs ys

select-ext :
    {A : Type 0} (f g : A → Bool) (xs : List A) → ((a : A) → f a ≡ g a) → select f xs ≡ select g xs
select-ext f g xs h = λ i. select (λ a. h a i) xs

module _ (check : String → Result String NodeAvailability) where
  -- The node can be read from.
  abbrev pub is_readable : String → Bool
  is_readable n = can_read (or_unavailable (check n))

  contains-if :
      (b : Bool) (x n : String) (rest : List String)
      → contains (if b then x ∷ rest else rest) n ≡ ((b && (x =? n)) || contains rest n)
  contains-if true x n rest = refl
  contains-if false x n rest = refl

  -- The nodes that pass are those of the list that can be read from.
  contains-check_nodes :
      (ns : List String) (d : Detector) (n : String)
      → contains (check_nodes check ns d).1 n ≡ (contains ns n && is_readable n)
  unfolding check_nodes
  contains-check_nodes [] d n = refl
  contains-check_nodes (x ∷ ns) d n =
      contains-if (is_readable x) x n _
      ∙ ap ((is_readable x && (x =? n)) ||◌) (contains-check_nodes ns _ n)
      ∙ first_or (is_readable x) (x =? n) (contains ns n) (is_readable n)
          (λ e. ap is_readable ((string_key.same_iff x n).0 e))
    where
      first_or : (a b c r : Bool) → (b ≡ true → a ≡ r) → ((a && b) || (c && r)) ≡ ((b || c) && r)
      first_or a true c r h = ground (arith, h refl)
      first_or a false c r h = ground arith

  -- The issue of a chunk names all its holders that can be read from and no others, in their order; it is
  -- critical where there are none and under-replicated by their number otherwise, and has the priority
  -- of its health.
  abbrev pub IsIssueOf : ℕ → List String → ChunkIssue → ChunkInfo → Type 0
  IsIssueOf factor nodes i k =
      (i.chunk_id ≡ k.chunk_id)
      × (i.file_id ≡ k.file_id)
      × (i.current_nodes ≡ select (λ n. contains nodes n && is_readable n) k.node_ids)
      × (i.health ≡ (
          if is_empty i.current_nodes
          then critical
          else under_replicated (length i.current_nodes) factor))
      × (calculate_priority i.health ≡ ok i.priority)

  module _ (factor : ℕ) (nodes found : List String)
      (same : (n : String) → contains found n ≡ (contains nodes n && is_readable n)) where
    issue_of_ok :
        (c : ChunkInfo) (i : ChunkIssue)
        → issue_of factor found c ≡ ok i
        → IsIssueOf factor nodes i c
    unfolding issue_of
    issue_of_ok c i h =
        let available = select (contains found) c.node_ids in
        let (priority, p, q) =
          bind_ok
            (calculate_priority
              (if is_empty available then critical else under_replicated (length available) factor))
            _ _ h in
        subst (λ j. IsIssueOf factor nodes j c) (ok_injective q)
          (refl, refl, select-ext _ _ c.node_ids same, refl, p)

    issues_of_ok :
        (cs : List ChunkInfo) (is : List ChunkIssue)
        → issues_of factor found cs ≡ ok is
        → Each (IsIssueOf factor nodes) is cs
    unfolding issues_of
    issues_of_ok [] is h = subst (λ l. Each (IsIssueOf factor nodes) l []) (ok_injective h) tt
    issues_of_ok (c ∷ cs) is h =
        let (i, hi, h1) = bind_ok (issue_of factor found c) _ _ h in
        let (js, hj, h2) = bind_ok (issues_of factor found cs) _ _ h1 in
        subst (λ l. Each (IsIssueOf factor nodes) l (c ∷ cs)) (ok_injective h2)
          (issue_of_ok c i hi, issues_of_ok cs js hj)

-- What a scan that succeeds has found.
abbrev Found :
    (String → Result String NodeAvailability)
    → ℕ
    → ℕ
    → List String
    → Detector
    → ScanResult
    → Result String (List ChunkInfo)
    → Type 0
Found check now factor nodes d' r got =
    (chunks : List ChunkInfo) × (got ≡ ok chunks)
    × Each (IsIssueOf check factor nodes) r.under_replicated chunks
    × (r.total_scanned ≡ length r.under_replicated)
    × (d'.last_scan ≡ some now)

config-check_nodes :
    (check : String → Result String NodeAvailability) (ns : List String) (d : Detector)
    → (check_nodes check ns d).0.config ≡ d.config
unfolding check_nodes
config-check_nodes check [] d = refl
config-check_nodes check (n ∷ ns) d = config-check_nodes check ns _

module _ (check : String → Result String NodeAvailability) (now : ℕ) (d' : Detector)
    (r : ScanResult) where
  finish_ok :
      (d : Detector) (o : Outcome (List ChunkIssue))
      → finish_scan now d o ≡ (d', ok r)
      → (is : List ChunkIssue) × (o ≡ ok is)
        × (r.under_replicated ≡ is)
        × (r.total_scanned ≡ length is)
        × (d'.last_scan ≡ some now)
  finish_ok d (err e) h = absurd (ground arith)
  finish_ok d (ok is) h = (is, refl, ground arith, ground arith, ground arith)

  scan_chunks_ok :
      (d : Detector) (nodes found : List String) (got : Result String (List ChunkInfo))
      → ((n : String) → contains found n ≡ (contains nodes n && is_readable check n))
      → scan_chunks now d found got ≡ (d', ok r)
      → Found check now d.config.replication_factor nodes d' r got
  scan_chunks_ok d nodes found (err e) a h = absurd (ground arith)
  scan_chunks_ok d nodes found (ok chunks) a h =
      let (is, o, same, count, time) =
        finish_ok d (issues_of d.config.replication_factor found chunks) h in
      let good = issues_of_ok check d.config.replication_factor nodes found a chunks is o in
      (
        chunks,
        refl,
        subst (λ l. Each (IsIssueOf check d.config.replication_factor nodes) l chunks) (sym same)
            good,
        count ∙ ap length (sym same),
        time,
      )

scan_nodes_ok :
    (c : Clients) (now : ℕ) (d d' : Detector) (r : ScanResult) (got : Result String (List String))
    → scan_nodes c now d got ≡ (d', ok r)
    → (nodes : List String) × (got ≡ ok nodes)
      × Found c.check_node_availability now d.config.replication_factor nodes d' r
          (c.get_under_replicated_chunks d.config.batch_size)
scan_nodes_ok c now d d' r (err e) h = absurd (ground arith)
scan_nodes_ok c now d d' r (ok nodes) h =
    let check = c.check_node_availability in
    let seen = check_nodes check nodes d in
    (
      nodes,
      refl,
      subst
          (λ (g : DetectorConfig).
            Found check now g.replication_factor nodes d' r
              (c.get_under_replicated_chunks d.config.batch_size))
          (config-check_nodes check nodes d)
          (scan_chunks_ok check now d' r seen.0 nodes seen.1 _ (contains-check_nodes check nodes d)
            h),
    )

module _ (c : Clients) (now : ℕ) (d d' : Detector) (r : ScanResult) where
  -- A scan that succeeds reports each chunk that the metadata service named, in its order, and counts them.
  -- The issue of a chunk names all its holders among the known nodes that can be read from and no others; it
  -- is critical where there are none and under-replicated by their number otherwise, and has the priority
  -- of its health.
  pub scan_ok :
      scan c now d ≡ (d', ok r)
      → (nodes : List String) × (chunks : List ChunkInfo) × (c.get_all_nodes ≡ ok nodes)
        × (c.get_under_replicated_chunks d.config.batch_size ≡ ok chunks)
        × Each
            (IsIssueOf c.check_node_availability d.config.replication_factor nodes)
            r.under_replicated
            chunks
        × (r.total_scanned ≡ length r.under_replicated)
        × (d'.last_scan ≡ some now)
  unfolding scan
  scan_ok h =
      let (nodes, g, (chunks, k, each, count, time)) =
        scan_nodes_ok c now d d' r c.get_all_nodes h in
      (nodes, chunks, g, k, each, count, time)

Each-All :
    {A B : Type 0} (R : A → B → Type 0) (P : A → Type 0)
    → ((a : A) (b : B) → R a b → P a)
    → (xs : List A) (ys : List B) → Each R xs ys
    → All P xs
Each-All R P f [] [] h = tt
Each-All R P f [] (y ∷ ys) h = tt
Each-All R P f (x ∷ xs) [] h = absurd h
Each-All R P f (x ∷ xs) (y ∷ ys) h = (f x y h.0, Each-All R P f xs ys h.1)

no_holders :
    (factor : ℕ) (ns : List String)
    → (if is_empty ns then critical else under_replicated (length ns) factor) ≡ critical
    → ns ≡ []
no_holders factor [] h = refl
no_holders factor (n ∷ ns) h = absurd (ground arith)

unsourced :
    {F : Type 0} (fl : Floats F) (p : Planner F) (nodes : List (NodeInfo F)) (i : ChunkIssue)
    → i.health ≡ critical
    → i.current_nodes ≡ []
    → plan_repair fl p i nodes ≡ err no_source_nodes
unfolding plan_repair
unsourced fl p nodes i h e = ground arith

-- The planner refuses every critical issue of a scan: there is no node to read the chunk from.
pub scan-plan_repair :
    {F : Type 0} (fl : Floats F) (p : Planner F) (nodes : List (NodeInfo F)) (c : Clients) (now : ℕ)
    (d d' : Detector) (r : ScanResult)
    → scan c now d ≡ (d', ok r)
    → All
        (λ i. i.health ≡ critical → plan_repair fl p i nodes ≡ err no_source_nodes)
        r.under_replicated
scan-plan_repair fl p nodes c now d d' r h =
    let (_, _, _, _, each, _, _) = scan_ok c now d d' r h in
    Each-All _ _
      (λ i k (_, _, _, health, _) e.
        unsourced fl p nodes i e
          (no_holders d.config.replication_factor i.current_nodes (sym health ∙ e)))
      r.under_replicated _ each
