-- ===== src/Payments/Uptime.antt =====
-- What `accumulate_uptime` adds to the rows of `node_epoch_uptime`.
use cyxcloud.Prelude.{
  ℕ, ◌+◌, Bool, true, false, Option, none, some, List, [], ◌∷◌, ◌≡◌, ◌≢◌, refl, sym, ap, ◌∙◌, subst,
  ◌==◌, ==_iff, if◌then◌else◌, All, All-imp, Unique, =?_refl, =?_ne, number_key, pair_key, inl, inr,
  Bool-cases, arith,
}
use cyxcloud.Prelude.Assoc.{Map, get, insert, get-insert}
use cyxcloud.Payments.Steps.{Step, after, ◌>>=◌}
use cyxcloud.Payments.Ledger.{
  PaidNode, NodeEpochUptime, PaymentLedger, World, Statements, ask, execute, insert_new, update_row,
  new_uptime, create_or_get_epoch_uptime, update_uptime_online, update_uptime_offline, ask_nodes,
  record_uptime, add_uptime,
}
use cyxcloud.Payments.Daemon.{
  PaymentDaemonConfig, update_metrics, is_up, or_now, accumulate_node, accumulate_nodes,
  accumulate_uptime,
}
use cyxcloud.Payments.Shares.{AllUp, ask_up, try_up}

abbrev Rows : Type 0
Rows = Map (ℕ × ℕ) NodeEpochUptime

abbrev or_new : NodeEpochUptime → Option NodeEpochUptime → NodeEpochUptime
or_new u none = u
or_new u (some v) = v

module _ (key : ℕ × ℕ) (u : NodeEpochUptime) (f : NodeEpochUptime → NodeEpochUptime) where
  get_same : (v : NodeEpochUptime) (m : Rows) → get key (insert key v m) ≡ some v
  get_same v m = get-insert key key v m ∙ ap (λ t. if t then some v else get key m) (=?_refl key)

  get_other :
      (k : ℕ × ℕ) (v : NodeEpochUptime) (m : Rows) → key ≢ k → get k (insert key v m) ≡ get k m
  get_other k v m n = get-insert key k v m ∙ ap (λ t. if t then some v else get k m) (=?_ne key k n)

  insert_new_same :
      (o : Option NodeEpochUptime) (m : Rows)
      → get key m ≡ o
      → get key (insert_new key u o m) ≡ some (or_new u o)
  insert_new_same none m e = get_same u m
  insert_new_same (some v) m e = e

  insert_new_other :
      (k : ℕ × ℕ) (o : Option NodeEpochUptime) (m : Rows)
      → key ≢ k
      → get k (insert_new key u o m) ≡ get k m
  insert_new_other k none m n = get_other k u m n
  insert_new_other k (some v) m n = refl

  update_row_same :
      (v : NodeEpochUptime) (o : Option NodeEpochUptime) (m : Rows)
      → o ≡ some v
      → get key (update_row key f o m) ≡ some (f v)
  update_row_same v none m e = absurd (ground arith)
  update_row_same v (some x) m e = get_same (f x) m ∙ ground (arith, e)

  update_row_other :
      (k : ℕ × ℕ) (o : Option NodeEpochUptime) (m : Rows)
      → key ≢ k
      → get k (update_row key f o m) ≡ get k m
  update_row_other k none m n = refl
  update_row_other k (some v) m n = get_other k (f v) m n

  -- A row that is created if it is missing and then changed.
  abbrev upsert : Rows → Rows
  upsert m = let m1 = insert_new key u (get key m) m in update_row key f (get key m1) m1

  upsert_same : (m : Rows) → get key (upsert m) ≡ some (f (or_new u (get key m)))
  upsert_same m =
      update_row_same (or_new u (get key m)) _ (insert_new key u (get key m) m)
        (insert_new_same (get key m) m refl)

  upsert_other : (k : ℕ × ℕ) (m : Rows) → key ≢ k → get k (upsert m) ≡ get k m
  upsert_other k m n =
      update_row_other k _ (insert_new key u (get key m) m) n ∙ insert_new_other k (get key m) m n

abbrev with_ledger : World → PaymentLedger → World × Option (Unit {0})
with_ledger w l = (record w { ledger = l }, some tt)

module _ (s : Statements) (number seconds : ℕ) (start : Option ℕ) where
  -- The row of a node after its part of the interval.
  abbrev pub add_interval : PaidNode → NodeEpochUptime → NodeEpochUptime
  add_interval n v =
      if is_up n.status
      then record v {
        seconds_online = v.seconds_online + seconds;
        last_status_change = some (s.at (add_uptime n.id));
      }
      else record v {
        seconds_offline = v.seconds_offline + seconds;
        last_status_change = some (s.at (add_uptime n.id));
      }

  abbrev pub fresh_row : PaidNode → NodeEpochUptime
  fresh_row n = new_uptime n.id number (or_now start (s.at (record_uptime n.id)))

  -- The row before the interval, where a missing one is new.
  abbrev pub row_of : PaidNode → PaymentLedger → NodeEpochUptime
  row_of n l = or_new (fresh_row n) (get (n.id, number) l.uptimes)

  abbrev all_rows : List PaidNode → Rows → Rows
  all_rows [] m = m
  all_rows (n ∷ ns) m = all_rows ns (upsert (n.id, number) (fresh_row n) (add_interval n) m)

  all_rows_other :
      (k : ℕ × ℕ) (ns : List PaidNode) (m : Rows)
      → All (λ (n : PaidNode). (n.id, number) ≢ k) ns
      → get k (all_rows ns m) ≡ get k m
  all_rows_other k [] m h = refl
  all_rows_other k (n ∷ ns) m h =
      all_rows_other k ns _ h.1 ∙ upsert_other (n.id, number) (fresh_row n) (add_interval n) k m h.0

  pair_ne : (a b c : ℕ) → a ≢ b → ◌≢◌ {A = ℕ × ℕ} (a, c) (b, c)
  pair_ne a b c n e = n (ap (λ (p : ℕ × ℕ). p.0) e)

  -- Every node has the row that it should have.
  abbrev pub IsCounted : PaymentLedger → PaymentLedger → PaidNode → Type 0
  IsCounted l l' n = get (n.id, number) l'.uptimes ≡ some (add_interval n (row_of n l))

  all_rows_each :
      (ns : List PaidNode) (m : Rows)
      → Unique (λ (n : PaidNode). n.id) ns
      → All
          (λ (n : PaidNode).
            get (n.id, number) (all_rows ns m)
            ≡ some (add_interval n (or_new (fresh_row n) (get (n.id, number) m))))
          ns
  all_rows_each [] m u = tt
  all_rows_each (n ∷ ns) m u =
      let m1 = upsert (n.id, number) (fresh_row n) (add_interval n) m in
      (
        all_rows_other (n.id, number) ns m1 (All-imp (λ x h. pair_ne x.id n.id number h) ns u.0)
            ∙ upsert_same (n.id, number) (fresh_row n) (add_interval n) m,
        both ns (All-imp (λ x h. h) ns u.0) (all_rows_each ns m1 u.1),
      )
    where
      both :
          (xs : List PaidNode)
          → All (λ x. x.id ≢ n.id) xs
          → All
              (λ (x : PaidNode).
                get
                  (x.id, number)
                  (all_rows ns (upsert (n.id, number) (fresh_row n) (add_interval n) m))
                ≡ some (
                    add_interval x (
                      or_new (fresh_row x) (
                        get
                          (x.id, number)
                          (upsert (n.id, number) (fresh_row n) (add_interval n) m)))))
              xs
          → All
              (λ (x : PaidNode).
                get
                  (x.id, number)
                  (all_rows ns (upsert (n.id, number) (fresh_row n) (add_interval n) m))
                ≡ some (add_interval x (or_new (fresh_row x) (get (x.id, number) m))))
              xs
      both [] h k = tt
      both (x ∷ xs) h k = (
        k.0
            ∙ ap (λ o. some (add_interval x (or_new (fresh_row x) o)))
                (upsert_other (n.id, number) (fresh_row n) (add_interval n) (x.id, number) m
                  (pair_ne n.id x.id number (λ e. h.0 (sym e)))),
        both xs h.1 k.1,
      )

  abbrev counted : List PaidNode → PaymentLedger → PaymentLedger
  counted ns l = record l { uptimes = all_rows ns l.uptimes }

  added :
      (b : Bool) (id at : ℕ) (l : PaymentLedger)
      → (if b
            then update_uptime_online id number seconds at
            else update_uptime_offline id number seconds at)
          l
        ≡ record l {
          uptimes =
              update_row
                (id, number)
                (λ v.
                  if b
                  then record v {
                    seconds_online = v.seconds_online + seconds;
                    last_status_change = some at;
                  }
                  else record v {
                    seconds_offline = v.seconds_offline + seconds;
                    last_status_change = some at;
                  })
                (get (id, number) l.uptimes)
                l.uptimes;
        }
  unfolding update_uptime_online update_uptime_offline
  added true id at l = refl
  added false id at l = refl

  module _ (up : AllUp s) where
    accumulate_node_up :
        (n : PaidNode) (w : World)
        → accumulate_node s number seconds start n w
          ≡ (record w { ledger = counted (n ∷ []) w.ledger }, some tt)
    unfolding create_or_get_epoch_uptime
    accumulate_node_up n w =
        let now = s.at (add_uptime n.id) in
        let create =
          create_or_get_epoch_uptime n.id number (or_now start (s.at (record_uptime n.id))) in
        let add : PaymentLedger → PaymentLedger =
          if is_up n.status
          then update_uptime_online n.id number seconds now
          else update_uptime_offline n.id number seconds now in
        let next : Unit {0} → Step World (Unit {0}) = λ _. execute s (add_uptime n.id) add in
        let w1 : World = record w { ledger = create w.ledger } in
        after (execute s (record_uptime n.id) create) next {w = w} {w' = w1}
          (try_up s up (record_uptime n.id) (λ l. some (create l)) w)
          (try_up s up (add_uptime n.id) (λ l. some (add l)) w1
            ∙ ap (λ l. with_ledger w1 l) (added (is_up n.status) n.id now w1.ledger))

    accumulate_nodes_up :
        (ns : List PaidNode) (w : World)
        → accumulate_nodes s number seconds start ns w
          ≡ (record w { ledger = counted ns w.ledger }, some tt)
    unfolding accumulate_nodes
    accumulate_nodes_up [] w = refl
    accumulate_nodes_up (n ∷ ns) w =
        after (accumulate_node s number seconds start n)
          (λ _. accumulate_nodes s number seconds start ns) {w = w}
          {w' = record w { ledger = counted (n ∷ []) w.ledger }} (accumulate_node_up n w)
          (accumulate_nodes_up ns (record w { ledger = counted (n ∷ []) w.ledger }))

-- Where every statement goes through, there is an epoch and the nodes have distinct keys, the interval is
-- added to the row of each node for that epoch, to its seconds online where it is online or recovering
-- and to its seconds offline otherwise; a missing row is new. No other row changes.
pub accumulate_uptime_counts :
    (s : Statements)
    → AllUp s
    → (c : PaymentDaemonConfig) (now : ℕ) (w : World) → w.metrics.current_epoch ≢ 0
    → Unique (λ (n : PaidNode). n.id) w.ledger.nodes
    → let (w', r) = accumulate_uptime s c now w in
      let number = w.metrics.current_epoch in
      (r ≡ some tt)
      × All
          (IsCounted s number c.accumulate_interval w.metrics.epoch_start w.ledger w'.ledger)
          w.ledger.nodes
      × ((k : ℕ × ℕ)
          → All (λ (n : PaidNode). (n.id, number) ≢ k) w.ledger.nodes
          → get k w'.ledger.uptimes ≡ get k w.ledger.uptimes)
accumulate_uptime_counts s up c now w n u =
    let number = w.metrics.current_epoch in
    let seconds = c.accumulate_interval in
    let start = w.metrics.epoch_start in
    let nodes = w.ledger.nodes in
    (
      ap (λ r. r.1) whole,
      subst (λ r. All (IsCounted s number seconds start w.ledger r.0.ledger) nodes) (sym whole)
          (all_rows_each s number seconds start nodes w.ledger.uptimes u),
      λ k h.
          ap (λ r. get k r.0.ledger.uptimes) whole
          ∙ all_rows_other s number seconds start k nodes w.ledger.uptimes h,
    )
  where
    not_zero : (w.metrics.current_epoch == 0) ≡ false
    not_zero = elim (Bool-cases (w.metrics.current_epoch == 0)) [
      | inl t ↦ absurd (n ((==_iff w.metrics.current_epoch 0).0 t))
      | inr t ↦ t
    ]

    whole : accumulate_uptime s c now w ≡ (
      record w {
        ledger =
            counted s w.metrics.current_epoch c.accumulate_interval w.metrics.epoch_start
              w.ledger.nodes w.ledger;
        metrics = record w.metrics {
          uptime_updates = w.metrics.uptime_updates + 1;
          last_accumulate_at = some now;
        };
      },
      some tt,
    )
    whole =
        unfold accumulate_uptime in
        let number = w.metrics.current_epoch in
        let seconds = c.accumulate_interval in
        let start = w.metrics.epoch_start in
        let last : Unit {0} → Step World (Unit {0}) = λ _.
          update_metrics λ m. record m {
            uptime_updates = m.uptime_updates + 1;
            last_accumulate_at = some now;
          } in
        let next : List PaidNode → Step World (Unit {0}) =
          λ ns. accumulate_nodes s number seconds start ns >>= last in
        let body = ask s ask_nodes (λ l. l.nodes) >>= next in
        (λ i. if not_zero i then (w, some tt) else body w)
        ∙ after (ask s ask_nodes (λ l. l.nodes)) next {w = w} {w' = w}
            (ask_up s up ask_nodes (λ l. l.nodes) w)
            (after (accumulate_nodes s number seconds start w.ledger.nodes) last {w = w}
              {w' = record w { ledger = counted s number seconds start w.ledger.nodes w.ledger }}
              (accumulate_nodes_up s number seconds start up w.ledger.nodes w) refl)
