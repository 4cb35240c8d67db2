-- ===== src/Lifecycle/Edges.antt =====
-- The status edges: what a cycle and a heartbeat can make of a node.
use cyxcloud.Prelude.{
  ℕ, ◌+◌, ◌≤◌, ◌<◌, true, false, none, some, List, ◌≡◌, ◌≢◌, ◌⊎◌, inl, inr, refl, sym, subst, arith,
}
use cyxcloud.Lifecycle.{
  Node, NodeStatus, RepairJob, online, offline, recovering, draining, maintenance, unknown,
  is_stale, is_for_draining, is_for_removal, is_recovered, set_offline, set_online, set_draining,
  set_recovering, set_heartbeat, is_referenced, is_gone, coalesce,
}
use cyxcloud.Lifecycle.Monitor.{FaultToleranceConfig, Cycle}
use cyxcloud.Lifecycle.Pass.{one_cycle}

-- An online node whose last heartbeat is not older than the offline threshold when the cycle looks for
-- stale nodes is left exactly as it is.
pub one_cycle_fresh :
    (c : FaultToleranceConfig) (y : Cycle) (jobs : List RepairJob) (n : Node) (t : ℕ)
    → n.status ≡ online
    → n.last_heartbeat ≡ some t
    → y.stale.asked_at ≤ t + c.offline_threshold
    → one_cycle c y jobs n ≡ some n
unfolding is_stale is_for_draining is_for_removal is_recovered
one_cycle_fresh c y jobs n t s h l = ground arith

-- The moves that one cycle can make; a stale node can be drained in the cycle that finds it.
pub data Edge : NodeStatus → NodeStatus → Type 0 where
  stays : (s : NodeStatus) → Edge s s
  goes_offline : Edge online offline
  goes_draining : Edge online draining
  drains : Edge offline draining
  recovers : Edge recovering online

-- The statuses that can follow.
Follows : NodeStatus → NodeStatus → Type 0
Follows online t = (t ≡ online) ⊎ ((t ≡ offline) ⊎ (t ≡ draining))
Follows offline t = (t ≡ offline) ⊎ (t ≡ draining)
Follows recovering t = (t ≡ recovering) ⊎ (t ≡ online)
Follows draining t = t ≡ draining
Follows maintenance t = t ≡ maintenance
Follows (unknown x) t = t ≡ unknown x

one_cycle-Follows :
    (c : FaultToleranceConfig) (y : Cycle) (jobs : List RepairJob) (n m : Node) (s : NodeStatus)
    → n.status ≡ s
    → one_cycle c y jobs n ≡ some m
    → Follows s m.status
unfolding Follows is_stale is_for_draining is_for_removal is_recovered set_offline set_online
    set_draining
one_cycle-Follows c y jobs n m online e h = ground arith
one_cycle-Follows c y jobs n m offline e h = ground arith
one_cycle-Follows c y jobs n m recovering e h = ground arith
one_cycle-Follows c y jobs n m draining e h = ground arith
one_cycle-Follows c y jobs n m maintenance e h = ground arith
one_cycle-Follows c y jobs n m (unknown x) e h = ground arith

Follows-Edge : (s t : NodeStatus) → Follows s t → Edge s t
unfolding Follows
Follows-Edge online t (inl p) = subst (Edge online) (sym p) (stays online)
Follows-Edge online t (inr (inl p)) = subst (Edge online) (sym p) goes_offline
Follows-Edge online t (inr (inr p)) = subst (Edge online) (sym p) goes_draining
Follows-Edge offline t (inl p) = subst (Edge offline) (sym p) (stays offline)
Follows-Edge offline t (inr p) = subst (Edge offline) (sym p) drains
Follows-Edge recovering t (inl p) = subst (Edge recovering) (sym p) (stays recovering)
Follows-Edge recovering t (inr p) = subst (Edge recovering) (sym p) recovers
Follows-Edge draining t p = subst (Edge draining) (sym p) (stays draining)
Follows-Edge maintenance t p = subst (Edge maintenance) (sym p) (stays maintenance)
Follows-Edge (unknown x) t p = subst (Edge (unknown x)) (sym p) (stays (unknown x))

-- A node that a cycle keeps has the status that it had, or has moved along one of the edges from online
-- to offline or draining, from offline to draining, or from recovering to online.
pub one_cycle-Edge :
    (c : FaultToleranceConfig) (y : Cycle) (jobs : List RepairJob) (n m : Node)
    → one_cycle c y jobs n ≡ some m
    → Edge n.status m.status
one_cycle-Edge c y jobs n m h =
    Follows-Edge n.status m.status (one_cycle-Follows c y jobs n m n.status refl h)

-- A cycle removes a node only where no repair job names it and more than the removal threshold has
-- passed since it first went offline, which may be in this very cycle; it does not remove a node that
-- is recovering or under maintenance.
pub one_cycle_removes :
    (c : FaultToleranceConfig) (y : Cycle) (jobs : List RepairJob) (n : Node)
    → one_cycle c y jobs n ≡ none
    → (is_referenced n.id jobs ≡ false)
      × (coalesce n.first_offline_at (y.stale.updated_at n.id) + c.remove_threshold
          < y.remove.asked_at)
      × (n.status ≢ recovering)
      × (n.status ≢ maintenance)
unfolding is_stale is_for_draining is_for_removal is_recovered set_offline set_online set_draining
one_cycle_removes c y jobs n h = ground arith

-- A heartbeat is recorded whatever the status. A node that had gone, to be drained or not, enters
-- quarantine, and no node leaves quarantine or maintenance by a heartbeat.
pub set_heartbeat_moves :
    (now : ℕ) (n : Node)
    → let (m, answer) = set_heartbeat now n in
      (m.last_heartbeat ≡ some now)
      × (m.id ≡ n.id)
      × (is_gone n.status ≡ true → (m.status ≡ recovering) × (answer ≡ recovering))
      × (is_gone n.status ≡ false → m.status ≡ n.status)
unfolding set_heartbeat set_recovering
set_heartbeat_moves now n = ground arith
