-- ===== src/Quorum/Tests.antt =====
-- Quorums at concrete inputs: three nodes, one of which never answers a write and one of which
-- refuses to read.
use mathlib.Core.List.{Memᴰ, Perm}
use cyxcloud.Prelude.{
  All, ℕ, ◌≡◌, ◌<◌, ◌≤◌, ◌+◌, ◌++◌, ◌⊎◌, min, refl, true, some, none, Option, String, List, [], ◌∷◌,
  map, length, ◌=?◌, string_key, if◌then◌else◌, arith,
}
use cyxcloud.Prelude.Rows.{select}
use cyxcloud.Prelude.Sorting.{IsSortedBy, ascending}
use cyxcloud.Prelude.Results.{Result, ok, err}
use cyxcloud.Quorum.{
  QuorumResult, Request, strict, default_config, quorum_not_achieved, read_with_quorum,
  write_with_quorum, select_fastest_nodes, tally, answer, join_within, slowest, validate,
}
use cyxcloud.Quorum.Overlap.{ids, read-write-overlap}
use cyxcloud.Quorum.Outcomes.{confirmed, write_with_quorum_outcome}
use cyxcloud.Quorum.Fastest.{latency, answers, select_fastest_nodes_lem}

abbrev nodes : List String
nodes = "a" ∷ "b" ∷ "c" ∷ []

abbrev put : Request (Unit {0})
put node = if node =? "b" then none else some (5, ok tt)

abbrev fetch : Request ℕ
fetch node = if node =? "a" then some (1, err "no chunk") else some (2, ok 7)

abbrev written : QuorumResult (Unit {0})
written = record {
  successes = answer 10000 "a" (put "a") ∷ answer 10000 "c" (put "c") ∷ [];
  failures = answer 10000 "b" (put "b") ∷ [];
  quorum_achieved = true;
  total_latency_ms = 10000;
}

abbrev found : QuorumResult ℕ
found = record {
  successes = answer 10000 "b" (fetch "b") ∷ answer 10000 "c" (fetch "c") ∷ [];
  failures = answer 10000 "a" (fetch "a") ∷ [];
  quorum_achieved = true;
  total_latency_ms = 2;
}

writes : write_with_quorum (strict 3) nodes put ≡ ok written
unfolding write_with_quorum join_within tally slowest answer select
writes = refl

reads : read_with_quorum (strict 3) nodes fetch ≡ ok found
unfolding read_with_quorum join_within tally slowest answer select
reads = refl

read-write-overlap_example :
    (node : String) × Memᴰ node (ids written.successes) × Memᴰ node (ids found.successes)
read-write-overlap_example =
    read-write-overlap (strict 3) nodes put fetch written found (unfold validate in refl)
      (omega arith) writes reads refl

write_with_quorum_outcome_example :
    ((min 2 (length nodes) ≤ length (confirmed default_config nodes put))
      × ((w : QuorumResult (Unit {0})) × (write_with_quorum default_config nodes put ≡ ok w)
          × (w.successes ≡ confirmed default_config nodes put)
          × (length w.successes + length w.failures ≡ length nodes)))
    ⊎ ((length (confirmed default_config nodes put) < min 2 (length nodes))
        × (write_with_quorum default_config nodes put
            ≡ err (
                quorum_not_achieved
                  (length (confirmed default_config nodes put))
                  (min 2 (length nodes)))))
write_with_quorum_outcome_example =
    write_with_quorum_outcome default_config nodes put (omega arith) (omega arith)

abbrev copy : String → String → ℕ → Option (ℕ × Result String (Unit {0}))
copy source target chunk = put target

abbrev ping : String → Option ℕ
ping node = if node =? "a" then some 30 else if node =? "b" then none else some 4

select_fastest_nodes_lem_example :
    (chosen rest : List (String × ℕ)) × (select_fastest_nodes nodes 1 ping ≡ map (λ r. r.0) chosen)
    × Perm (map (λ r. r.0) (chosen ++ rest)) (select (answers ping) nodes)
    × All (λ r. ping r.0 ≡ some r.1) (chosen ++ rest)
    × IsSortedBy (ascending latency) (chosen ++ rest)
    × (length chosen ≡ min 1 (length (select (answers ping) nodes)))
select_fastest_nodes_lem_example = select_fastest_nodes_lem nodes 1 ping
