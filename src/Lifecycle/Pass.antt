-- ===== src/Lifecycle/Pass.antt =====
-- A check cycle is one pass over the node table: the loops of queries and updates by key come to a
-- function of the single row.
use cyxcloud.Prelude.{
  Unique, ℕ, Bool, true, false, ◌&&◌, Option, none, some, List, [], ◌∷◌, ◌≡◌, ◌≢◌, refl, sym, ap,
  ◌∙◌, subst, All, if◌then◌else◌, arith,
}
use cyxcloud.Prelude.Rows.{cons?, filter_rows, one_row, modify_each-select}
use cyxcloud.Lifecycle.{
  Node, Database, RepairJob, node_key, is_stale, is_for_draining, is_for_removal, is_recovered,
  set_offline, set_online, set_draining,
}
use cyxcloud.Lifecycle.Monitor.{
  FaultToleranceConfig, Step, EvacuationStep, Cycle, mark_stale, start_draining, remove_gone,
  promote_recovered, run_check_cycle,
}
use cyxcloud.Lifecycle.Loops.{
  row_update, removes, update_each-nodes, drain_each-nodes, delete_each-nodes,
}

-- What each of the four steps does to a row.
abbrev pub stale_row : FaultToleranceConfig → Step → Node → Option Node
stale_row c s =
    one_row node_key s.updates (is_stale c.offline_threshold s.asked_at) (row_update s set_offline)

abbrev pub drain_row : FaultToleranceConfig → Step → Node → Option Node
drain_row c s =
    one_row node_key s.updates (is_for_draining c.drain_threshold s.asked_at)
      (row_update s set_draining)

abbrev pub remove_row : FaultToleranceConfig → Step → List RepairJob → Node → Option Node
remove_row c s jobs =
    one_row node_key (removes s jobs) (is_for_removal c.remove_threshold s.asked_at) (λ n. none)

abbrev pub recover_row : FaultToleranceConfig → Step → Node → Option Node
recover_row c s =
    one_row node_key s.updates (is_recovered c.recovery_quarantine s.asked_at)
      (row_update s set_online)

abbrev pub and_then : Option Node → (Node → Option Node) → Option Node
and_then none g = none
and_then (some n) g = g n

abbrev pub then_row : (Node → Option Node) → (Node → Option Node) → Node → Option Node
then_row f g n = and_then (f n) g

-- The whole cycle on a row, where the given repair jobs stand when nodes are removed.
abbrev pub one_cycle : FaultToleranceConfig → Cycle → List RepairJob → Node → Option Node
one_cycle c y jobs = then_row (stale_row c y.stale) (
    then_row (drain_row c y.drain)
      (then_row (remove_row c y.remove jobs) (recover_row c y.recover)))

-- A pass that keeps the keys.
abbrev pub Keeps : (Node → Option Node) → Type 0
Keeps f = (r n : Node) → f r ≡ some n → n.id ≡ r.id

cons_then :
    (g : Node → Option Node) (o : Option Node) (rs ss : List Node)
    → filter_rows g rs ≡ ss
    → filter_rows g (cons? o rs) ≡ cons? (and_then o g) ss
unfolding filter_rows
cons_then g none rs ss h = h
cons_then g (some n) rs ss h = ap (cons? (g n)) h

filter_rows-then :
    (f g : Node → Option Node) (rs : List Node)
    → filter_rows g (filter_rows f rs) ≡ filter_rows (then_row f g) rs
unfolding filter_rows
filter_rows-then f g [] = refl
filter_rows-then f g (r ∷ rs) = cons_then g (f r) (filter_rows f rs) _ (filter_rows-then f g rs)

module _ (f : Node → Option Node) (keeps : Keeps f) where
  cons_keeps :
      (k : ℕ) (r : Node) (o : Option Node) (rs : List Node)
      → f r ≡ o
      → r.id ≢ k
      → All (λ n. n.id ≢ k) rs
      → All (λ n. n.id ≢ k) (cons? o rs)
  cons_keeps k r none rs e h a = a
  cons_keeps k r (some n) rs e h a = ((λ p. h (sym (keeps r n e) ∙ p)), a)

  All-filter_rows :
      (k : ℕ) (rs : List Node) → All (λ n. n.id ≢ k) rs → All (λ n. n.id ≢ k) (filter_rows f rs)
  unfolding filter_rows
  All-filter_rows k [] h = tt
  All-filter_rows k (r ∷ rs) h =
      cons_keeps k r (f r) (filter_rows f rs) refl h.0 (All-filter_rows k rs h.1)

  cons-Unique :
      (r : Node) (o : Option Node) (rs : List Node)
      → f r ≡ o
      → All (λ n. n.id ≢ r.id) rs
      → Unique node_key rs
      → Unique node_key (cons? o rs)
  cons-Unique r none rs e h u = u
  cons-Unique r (some n) rs e h u = (subst (λ k. All (λ m. m.id ≢ k) rs) (sym (keeps r n e)) h, u)

  pub filter_rows-Unique :
      (rs : List Node) → Unique node_key rs → Unique node_key (filter_rows f rs)
  unfolding filter_rows
  filter_rows-Unique [] u = tt
  filter_rows-Unique (r ∷ rs) u =
      cons-Unique r (f r) (filter_rows f rs) refl (All-filter_rows r.id rs u.0)
        (filter_rows-Unique rs u.1)

row_keeps :
    (b : Bool) (r n : Node) (o : Option Node)
    → (o ≡ some n → n.id ≡ r.id)
    → (if b then o else some r) ≡ some n
    → n.id ≡ r.id
row_keeps true r n o h e = h e
row_keeps false r n o h e = ground arith

some_id : (r n : Node) (k : ℕ) → r.id ≡ k → some r ≡ some n → n.id ≡ k
some_id r n k h e = ground arith

-- The updates keep the key.
offline-Keeps : (s : Step) → Keeps (row_update s set_offline)
unfolding set_offline
offline-Keeps s r n e = some_id _ n r.id refl e

draining-Keeps : (s : Step) → Keeps (row_update s set_draining)
unfolding set_draining
draining-Keeps s r n e = some_id _ n r.id refl e

online-Keeps : (s : Step) → Keeps (row_update s set_online)
unfolding set_online
online-Keeps s r n e = some_id _ n r.id refl e

none-Keeps : Keeps (λ n. none)
none-Keeps r n e = absurd (ground arith)

one_row-Keeps :
    (allowed : ℕ → Bool) (test : Node → Bool) (f : Node → Option Node)
    → Keeps f
    → Keeps (one_row node_key allowed test f)
one_row-Keeps allowed test f h r n e =
    row_keeps (test r && allowed (node_key r)) r n (f r) (h r n) e

-- Each step as a pass.
module _ (c : FaultToleranceConfig) (s : Step) where
  mark_stale-row :
      (db : Database)
      → Unique node_key db.nodes
      → (mark_stale c s db).nodes ≡ filter_rows (stale_row c s) db.nodes
  unfolding mark_stale
  mark_stale-row db u =
      update_each-nodes s set_offline _ db
      ∙ modify_each-select node_key s.updates (is_stale c.offline_threshold s.asked_at) _ db.nodes
          (offline-Keeps s) u

  start_draining-row :
      (e : ℕ → EvacuationStep) (db : Database)
      → Unique node_key db.nodes
      → (start_draining c s e db).nodes ≡ filter_rows (drain_row c s) db.nodes
  unfolding start_draining
  start_draining-row e db u =
      drain_each-nodes s e _ db
      ∙ modify_each-select node_key s.updates (is_for_draining c.drain_threshold s.asked_at) _
          db.nodes (draining-Keeps s) u

  remove_gone-row :
      (db : Database)
      → Unique node_key db.nodes
      → (remove_gone c s db).nodes ≡ filter_rows (remove_row c s db.repair_jobs) db.nodes
  unfolding remove_gone
  remove_gone-row db u =
      (delete_each-nodes s _ db).0
      ∙ modify_each-select node_key (removes s db.repair_jobs)
          (is_for_removal c.remove_threshold s.asked_at) _ db.nodes none-Keeps u

  promote_recovered-row :
      (db : Database)
      → Unique node_key db.nodes
      → (promote_recovered c s db).nodes ≡ filter_rows (recover_row c s) db.nodes
  unfolding promote_recovered
  promote_recovered-row db u =
      update_each-nodes s set_online _ db
      ∙ modify_each-select node_key s.updates (is_recovered c.recovery_quarantine s.asked_at) _
          db.nodes (online-Keeps s) u

all_asked :
    (c : FaultToleranceConfig) (y : Cycle) (db : Database)
    → y.stale.asked ≡ true
    → y.drain.asked ≡ true
    → y.remove.asked ≡ true
    → y.recover.asked ≡ true
    → run_check_cycle c y db
      ≡ promote_recovered c y.recover
          (remove_gone c y.remove (start_draining c y.drain y.evacuate (mark_stale c y.stale db)))
unfolding run_check_cycle
all_asked c y db a1 a2 a3 a4 = λ i.
    let db1 = mark_stale c y.stale db in
    let db2 = start_draining c y.drain y.evacuate db1 in
    let db3 = remove_gone c y.remove db2 in
    if a1 i
    then if a2 i
      then if a3 i then if a4 i then promote_recovered c y.recover db3 else db3 else db2
      else db1
    else db

module _ (c : FaultToleranceConfig) (y : Cycle) (db : Database) where
  -- A cycle whose queries are all answered is one pass over the table of nodes: what becomes of a node
  -- depends on its own row, on the times and outcomes of its own statements, and on the repair jobs
  -- that stand when nodes are removed, and on no other node.
  pub run_check_cycle-nodes :
      Unique node_key db.nodes
      → y.stale.asked ≡ true
      → y.drain.asked ≡ true
      → y.remove.asked ≡ true
      → y.recover.asked ≡ true
      → let jobs = (start_draining c y.drain y.evacuate (mark_stale c y.stale db)).repair_jobs in
        (run_check_cycle c y db).nodes ≡ filter_rows (one_cycle c y jobs) db.nodes
  run_check_cycle-nodes u a1 a2 a3 a4 =
      let db1 = mark_stale c y.stale db in
      let db2 = start_draining c y.drain y.evacuate db1 in
      let db3 = remove_gone c y.remove db2 in
      let jobs = db2.repair_jobs in
      let e1 = mark_stale-row c y.stale db u in
      let k1 =
        one_row-Keeps y.stale.updates (is_stale c.offline_threshold y.stale.asked_at) _
          (offline-Keeps y.stale) in
      let u1 =
        subst (Unique node_key) (sym e1) (filter_rows-Unique (stale_row c y.stale) k1 db.nodes u) in
      let e2 = start_draining-row c y.drain y.evacuate db1 u1 in
      let k2 =
        one_row-Keeps y.drain.updates (is_for_draining c.drain_threshold y.drain.asked_at) _
          (draining-Keeps y.drain) in
      let u2 =
        subst (Unique node_key) (sym e2)
          (filter_rows-Unique (drain_row c y.drain) k2 db1.nodes u1) in
      let e3 = remove_gone-row c y.remove db2 u2 in
      let k3 =
        one_row-Keeps (removes y.remove jobs) (is_for_removal c.remove_threshold y.remove.asked_at)
          _ none-Keeps in
      let u3 =
        subst (Unique node_key) (sym e3)
          (filter_rows-Unique (remove_row c y.remove jobs) k3 db2.nodes u2) in
      let e4 = promote_recovered-row c y.recover db3 u3 in
      ap (λ (d : Database). d.nodes) (all_asked c y db a1 a2 a3 a4)
      ∙ e4
      ∙ ap (filter_rows (recover_row c y.recover)) e3
      ∙ filter_rows-then (remove_row c y.remove jobs) (recover_row c y.recover) db2.nodes
      ∙ ap (filter_rows _) e2
      ∙ filter_rows-then (drain_row c y.drain) _ db1.nodes
      ∙ ap (filter_rows _) e1
      ∙ filter_rows-then (stale_row c y.stale) _ db.nodes
