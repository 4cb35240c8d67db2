-- ===== src/Quorum/Outcomes.antt =====
-- What a quorum operation returns, on every branch.
use cyxcloud.Prelude.{
  ℕ, ◌+◌, ◌<◌, ◌≤◌, min, String, Bool, List, [], ◌∷◌, map, length, Option, ◌≡◌, refl, ap, inl, inr,
  arith, not, ◌⊎◌, ◌∙◌, length-map,
}
use cyxcloud.Prelude.Rows.{select}
use cyxcloud.Prelude.Results.{Result, ok, err, ◌>>=◌}
use cyxcloud.Quorum.{
  QuorumConfig, QuorumError, NodeResult, QuorumResult, Request, answer, succeeded, ask_all, tally,
  slowest, read_with_quorum, write_with_quorum, repair_chunk, join_within, quorum_not_achieved,
  no_nodes_available,
}

answer-latency :
    {T : Type 0} (limit : ℕ) (node : String) (o : Option (ℕ × Result String T))
    → (answer limit node o).latency_ms ≤ limit
unfolding answer
answer-latency limit node o = ground arith

pub slowest-ask_all :
    {T : Type 0} (limit : ℕ) (operation : Request T) (nodes : List String)
    → slowest (ask_all limit operation nodes) ≤ limit
unfolding slowest
slowest-ask_all limit operation [] = omega arith
slowest-ask_all limit operation (node ∷ nodes) =
    omega (arith, answer-latency limit node (operation node), slowest-ask_all limit operation nodes)

select_complement :
    {A : Type 0} (test : A → Bool) (xs : List A)
    → length (select test xs) + length (select (λ x. not (test x)) xs) ≡ length xs
unfolding select
select_complement test [] = refl
select_complement test (x ∷ xs) = ground (arith, select_complement test xs)

-- The nodes that confirm.
abbrev pub confirmed :
    QuorumConfig → List String → Request (Unit {0}) → List (NodeResult (Unit {0}))
confirmed c nodes put = select succeeded (ask_all c.node_timeout put nodes)

-- The write by the number of confirmations.
write_enough :
    (c : QuorumConfig) (nodes : List String) (put : Request (Unit {0}))
    → 0 < length nodes
    → c.node_timeout ≤ c.quorum_timeout
    → min c.write_quorum (length nodes) ≤ length (confirmed c nodes put)
    → write_with_quorum c nodes put
      ≡ ok (tally (min c.write_quorum (length nodes)) (ask_all c.node_timeout put nodes))
unfolding write_with_quorum join_within tally
write_enough c [] put p t h = absurd (omega arith)
write_enough c (node ∷ nodes) put p t h =
    ground (arith, slowest-ask_all c.node_timeout put (node ∷ nodes))

write_few :
    (c : QuorumConfig) (nodes : List String) (put : Request (Unit {0}))
    → 0 < length nodes
    → c.node_timeout ≤ c.quorum_timeout
    → length (confirmed c nodes put) < min c.write_quorum (length nodes)
    → write_with_quorum c nodes put
      ≡ err
          (quorum_not_achieved (length (confirmed c nodes put)) (min c.write_quorum (length nodes)))
unfolding write_with_quorum join_within tally
write_few c [] put p t h = absurd (omega arith)
write_few c (node ∷ nodes) put p t h =
    ground (arith, slowest-ask_all c.node_timeout put (node ∷ nodes))

le_or_lt : (a b : ℕ) → (a ≤ b) ⊎ (b < a)
le_or_lt a b = ground arith

-- A write to at least one node, with a timeout per node within that of the whole operation, never
-- times out: it returns the nodes that confirmed where they are enough, and otherwise the error that
-- says how many confirmed and how many were needed. No answer is lost: successes and failures are
-- together as many as the nodes.
pub write_with_quorum_outcome :
    (c : QuorumConfig) (nodes : List String) (put : Request (Unit {0}))
    → 0 < length nodes
    → c.node_timeout ≤ c.quorum_timeout
    → ((min c.write_quorum (length nodes) ≤ length (confirmed c nodes put))
        × ((w : QuorumResult (Unit {0})) × (write_with_quorum c nodes put ≡ ok w)
            × (w.successes ≡ confirmed c nodes put)
            × (length w.successes + length w.failures ≡ length nodes)))
      ⊎ ((length (confirmed c nodes put) < min c.write_quorum (length nodes))
          × (write_with_quorum c nodes put
              ≡ err (
                  quorum_not_achieved
                    (length (confirmed c nodes put))
                    (min c.write_quorum (length nodes)))))
write_with_quorum_outcome c nodes put p t =
    elim (le_or_lt (min c.write_quorum (length nodes)) (length (confirmed c nodes put))) [
      | inl h ↦ inl (h, (_, write_enough c nodes put p t h, tally_successes, all_counted))
      | inr h ↦ inr (h, write_few c nodes put p t h)
    ]
  where
    results : List (NodeResult (Unit {0}))
    results = ask_all c.node_timeout put nodes

    tally_successes :
        (tally (min c.write_quorum (length nodes)) results).successes ≡ confirmed c nodes put
    tally_successes = unfold tally in refl

    all_counted :
        length (tally (min c.write_quorum (length nodes)) results).successes
          + length (tally (min c.write_quorum (length nodes)) results).failures
        ≡ length nodes
    all_counted = unfold tally in select_complement succeeded results ∙ length-map nodes _

-- A quorum operation on no nodes is refused, the write and the read alike.
pub no_nodes :
    {T : Type 0} (c : QuorumConfig) (put : Request (Unit {0})) (get : Request T)
    → (write_with_quorum c [] put ≡ err no_nodes_available)
      × (read_with_quorum c [] get ≡ err no_nodes_available)
unfolding write_with_quorum read_with_quorum
no_nodes c put get = (refl, refl)

-- A repair asks every target to copy the chunk from the source. It returns the targets that did
-- exactly where the write quorum of them did.
pub repair_chunk_outcome :
    {H : Type 0} (c : QuorumConfig) (chunk_id : H) (source : String) (targets : List String)
    (transfer : String → String → H → Option (ℕ × Result String (Unit {0})))
    → 0 < length targets
    → c.node_timeout ≤ c.quorum_timeout
    → let copied = confirmed c targets (λ target. transfer source target chunk_id) in
      let needed = min c.write_quorum (length targets) in
      ((needed ≤ length copied)
        × (repair_chunk c chunk_id source targets transfer ≡ ok (map (λ r. r.node_id) copied)))
      ⊎ ((length copied < needed)
          × (repair_chunk c chunk_id source targets transfer
              ≡ err (quorum_not_achieved (length copied) needed)))
unfolding repair_chunk
repair_chunk_outcome c chunk_id source targets transfer p t =
    elim (write_with_quorum_outcome c targets (λ target. transfer source target chunk_id) p t) [
      | inl (h, (w, e, s, _)) ↦
          inl (h, ap (λ r. r >>= names) e ∙ ap (λ rs. ok (map (λ r. r.node_id) rs)) s)
      | inr (h, e) ↦ inr (h, ap (λ r. r >>= names) e)
    ]
  where
    names : QuorumResult (Unit {0}) → Result QuorumError (List String)
    names result = ok (map (λ r. r.node_id) result.successes)
