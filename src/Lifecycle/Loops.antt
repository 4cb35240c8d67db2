-- ===== src/Lifecycle/Loops.antt =====
-- The loops of queries and updates by key, as seen by the table of nodes.
use cyxcloud.Prelude.{
  ℕ, Bool, true, false, not, ◌&&◌, Option, none, some, List, [], ◌∷◌, ◌≡◌, refl, sym, ap, ◌∙◌, ◌==◌,
  if◌then◌else◌, arith,
}
use cyxcloud.Prelude.Rows.{cons?, modify, modify_each}
use cyxcloud.Lifecycle.{
  Node, Database, RepairJob, node_key, set_draining, update_node, delete_node, is_referenced,
}
use cyxcloud.Lifecycle.Monitor.{
  Step, EvacuationStep, update_each, drain_each, delete_each, or_else, trigger_chunk_evacuation,
}

cons_if :
    (b : Bool) {x y : Option Node} {rs ss : List Node} (r : Node)
    → (b ≡ true → x ≡ y)
    → rs ≡ ss
    → (if b then cons? x rs else r ∷ rs) ≡ (if b then cons? y ss else r ∷ ss)
cons_if true r h e = λ i. cons? (h refl i) (e i)
cons_if false r h e = ap (r ∷◌) e

modify_ext :
    (k : ℕ) (f g : Node → Option Node) (rs : List Node)
    → ((r : Node) → (node_key r == k) ≡ true → f r ≡ g r)
    → modify node_key k f rs ≡ modify node_key k g rs
unfolding modify
modify_ext k f g [] h = refl
modify_ext k f g (r ∷ rs) h = cons_if (node_key r == k) r (h r) (modify_ext k f g rs h)

equal : (a b : ℕ) → (a == b) ≡ true → a ≡ b
equal a b h = ground arith

-- An update as a function of the row alone.
abbrev pub row_update : Step → (ℕ → Node → Node) → Node → Option Node
row_update s set n = some (set (s.updated_at n.id) n)

modify_row :
    (s : Step) (set : ℕ → Node → Node) (k : ℕ) (rs : List Node)
    → modify node_key k (λ r. some (set (s.updated_at k) r)) rs
      ≡ modify node_key k (row_update s set) rs
modify_row s set k rs =
    modify_ext k _ _ rs (λ r h. ap (λ j. some (set (s.updated_at j) r)) (sym (equal r.id k h)))

-- One turn of a loop, on the table of nodes.
module _ (s : Step) (set : ℕ → Node → Node) where
  pub update_each-nodes :
      (sel : List Node) (db : Database)
      → (update_each s set sel db).nodes
        ≡ modify_each node_key s.updates (row_update s set) sel db.nodes
  unfolding update_each modify_each
  update_each-nodes [] db = refl
  update_each-nodes (n ∷ ns) db =
      update_each-nodes ns _
      ∙ ap (modify_each node_key s.updates (row_update s set) ns) (turn (s.updates n.id))
    where
      turn :
          (b : Bool)
          → (if b then update_node n.id (set (s.updated_at n.id)) db else db).nodes
            ≡ (if b then modify node_key n.id (row_update s set) db.nodes else db.nodes)
      turn true = unfold update_node in modify_row s set n.id db.nodes
      turn false = refl

  pub update_each-jobs :
      (sel : List Node) (db : Database) → (update_each s set sel db).repair_jobs ≡ db.repair_jobs
  unfolding update_each
  update_each-jobs [] db = refl
  update_each-jobs (n ∷ ns) db = update_each-jobs ns _ ∙ turn (s.updates n.id)
    where
      turn :
          (b : Bool)
          → (if b then update_node n.id (set (s.updated_at n.id)) db else db).repair_jobs
            ≡ db.repair_jobs
      turn true = unfold update_node in refl
      turn false = refl

pub trigger-nodes :
    (e : EvacuationStep) (id : ℕ) (db : Database)
    → (trigger_chunk_evacuation e id db).nodes ≡ db.nodes
unfolding trigger_chunk_evacuation
trigger-nodes e id db = ground arith

pub drain_each-nodes :
    (s : Step) (e : ℕ → EvacuationStep) (sel : List Node) (db : Database)
    → (drain_each s e sel db).nodes
      ≡ modify_each node_key s.updates (row_update s set_draining) sel db.nodes
unfolding drain_each modify_each
drain_each-nodes s e [] db = refl
drain_each-nodes s e (n ∷ ns) db =
    drain_each-nodes s e ns _
    ∙ ap (modify_each node_key s.updates (row_update s set_draining) ns) (turn (s.updates n.id))
  where
    turn :
        (b : Bool)
        → (if b
            then trigger_chunk_evacuation
                (e n.id)
                n.id
                (update_node n.id (set_draining (s.updated_at n.id)) db)
            else db).nodes
          ≡ (if b then modify node_key n.id (row_update s set_draining) db.nodes else db.nodes)
    turn true =
        trigger-nodes (e n.id) n.id _
        ∙ (unfold update_node in modify_row s set_draining n.id db.nodes)
    turn false = refl

-- A deletion goes through where the statement does and no repair job names the node.
abbrev pub removes : Step → List RepairJob → ℕ → Bool
removes s jobs k = s.updates k && not (is_referenced k jobs)

delete_turn :
    (b r : Bool) (k : ℕ) (db : Database)
    → is_referenced k db.repair_jobs ≡ r
    → let db' = if b then or_else (delete_node k db) db else db in
      (db'.nodes ≡ (if b && not r then modify node_key k (λ n. none) db.nodes else db.nodes))
      × (db'.repair_jobs ≡ db.repair_jobs)
unfolding delete_node
delete_turn false r k db h = (refl, refl)
delete_turn true true k db h = rw h (refl, refl)
delete_turn true false k db h = rw h (refl, refl)

pub delete_each-nodes :
    (s : Step) (sel : List Node) (db : Database)
    → ((delete_each s sel db).nodes
        ≡ modify_each node_key (removes s db.repair_jobs) (λ n. none) sel db.nodes)
      × ((delete_each s sel db).repair_jobs ≡ db.repair_jobs)
unfolding delete_each modify_each
delete_each-nodes s [] db = (refl, refl)
delete_each-nodes s (n ∷ ns) db =
    let db' = if s.updates n.id then or_else (delete_node n.id db) db else db in
    let (rows, jobs) = delete_turn (s.updates n.id) _ n.id db refl in
    let (later, later_jobs) = delete_each-nodes s ns db' in
    (
      later ∙ (λ i. modify_each node_key (removes s (jobs i)) (λ n. none) ns (rows i)),
      later_jobs ∙ jobs,
    )
