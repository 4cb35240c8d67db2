-- ===== src/Quorum/Fastest.antt =====
-- The choice of the nodes with the smallest latency.
use mathlib.Core.List.{Perm}
use mathlib.Core.List.Perm
use cyxcloud.Prelude.{
  ℕ, min, Bool, true, false, none, some, String, List, [], ◌∷◌, All, if◌then◌else◌, length-map,
  ◌++◌, map, length, take, drop, Option, take-append-drop, ◌≡◌, refl, sym, ap, ◌∙◌, subst,
  length-take,
}
use cyxcloud.Prelude.Rows.{select}
use cyxcloud.Prelude.Sorting.{
  sort_by, All-sort_by, sort_by-perm, length-sort_by, IsSortedBy, ascending, ascending-IsSortedBy,
}
use cyxcloud.Quorum.{reachable, select_fastest_nodes}

abbrev pub latency : String × ℕ → ℕ
latency r = r.1

-- The node answers the ping.
abbrev pub answers : (String → Option ℕ) → String → Bool
answers ping node = elim (ping node) [ none ↦ false | some latency ↦ true ]

module _ (ping : String → Option ℕ) where
  add_node : Option ℕ → String → List (String × ℕ) → List (String × ℕ)
  add_node o node rest = elim o [ none ↦ rest | some l ↦ (node, l) ∷ rest ]

  names-add_node :
      (o : Option ℕ) (node : String) (rest : List (String × ℕ)) (names : List String)
      → map (λ r. r.0) rest ≡ names
      → map (λ r. r.0) (add_node o node rest)
        ≡ (if (elim o [ none ↦ false | some l ↦ true ]) then node ∷ names else names)
  unfolding add_node
  names-add_node none node rest names h = h
  names-add_node (some l) node rest names h = ap (node ∷◌) h

  map-reachable :
      (nodes : List String) → map (λ r. r.0) (reachable ping nodes) ≡ select (answers ping) nodes
  unfolding reachable select add_node
  map-reachable [] = refl
  map-reachable (n ∷ ns) =
      names-add_node (ping n) n (reachable ping ns) (select (answers ping) ns) (map-reachable ns)

  All-add_node :
      (o : Option ℕ) (node : String) (rest : List (String × ℕ))
      → ping node ≡ o
      → All (λ r. ping r.0 ≡ some r.1) rest
      → All (λ r. ping r.0 ≡ some r.1) (add_node o node rest)
  unfolding add_node
  All-add_node none node rest e h = h
  All-add_node (some l) node rest e h = (e, h)

  All-reachable : (nodes : List String) → All (λ r. ping r.0 ≡ some r.1) (reachable ping nodes)
  unfolding reachable add_node
  All-reachable [] = tt
  All-reachable (n ∷ ns) = All-add_node (ping n) n (reachable ping ns) refl (All-reachable ns)

-- The nodes that are returned are the first of an arrangement of the nodes that answer the ping, and of no
-- others, in ascending order of the latencies of their answers: as many as were asked for, or all that
-- answer where these are fewer.
pub select_fastest_nodes_lem :
    (nodes : List String) (count : ℕ) (ping : String → Option ℕ)
    → (chosen rest : List (String × ℕ)) × (select_fastest_nodes nodes count ping
        ≡ map (λ r. r.0) chosen)
      × Perm (map (λ r. r.0) (chosen ++ rest)) (select (answers ping) nodes)
      × All (λ r. ping r.0 ≡ some r.1) (chosen ++ rest)
      × IsSortedBy (ascending latency) (chosen ++ rest)
      × (length chosen ≡ min count (length (select (answers ping) nodes)))
unfolding select_fastest_nodes
select_fastest_nodes_lem nodes count ping =
    let sorted = sort_by (ascending latency) (reachable ping nodes) in
    let whole = sym (take-append-drop count sorted) in
    (
      take count sorted,
      drop count sorted,
      refl,
      subst (λ l. Perm (map (λ r. r.0) l) (select (answers ping) nodes)) whole
          (subst (Perm (map (λ r. r.0) sorted)) (map-reachable ping nodes) (
            Perm.map (λ (r : String × ℕ). r.0)
              (sort_by-perm (ascending latency) (reachable ping nodes)))),
      subst (All (λ r. ping r.0 ≡ some r.1)) whole (
          All-sort_by (ascending latency) (λ r. ping r.0 ≡ some r.1) (reachable ping nodes)
            (All-reachable ping nodes)),
      subst (IsSortedBy (ascending latency)) whole
          (ascending-IsSortedBy latency (reachable ping nodes)),
      length-take count sorted
          ∙ ap (min count) (
              length-sort_by (ascending latency) (reachable ping nodes)
              ∙ sym (length-map (reachable ping nodes) (λ r. r.0))
              ∙ ap length (map-reachable ping nodes)),
    )
