-- ===== src/Transfers/Recorded.antt =====
-- Every target that a transfer reports has the chunk in the catalogue.
use cyxcloud.Prelude.{
  ℕ, suc, ◌&&◌, ◌+◌, ◌⊎◌, Bool, true, false, String, Option, none, some, List, [], ◌∷◌, ◌==◌, ◌=?◌,
  if◌then◌else◌, ◌≡◌, refl, ap, ◌∙◌, length, All, Bool-cases, inl, inr, =?_refl, pair_key,
  number_key, string_key, arith,
}
use cyxcloud.Prelude.Assoc.{get, get-insert}
use cyxcloud.Prelude.Parts.{Part, Part-skip}
use cyxcloud.Prelude.Results.{Result, ok, err, ok_injective}
use cyxcloud.Catalog.{Catalog, StorageNode, LocationRow, ChunkRow, bytes_key}
use cyxcloud.Catalog.Files.{update_chunk_status, first_row}
use cyxcloud.Prelude.Rows.{select}
use cyxcloud.Catalog.Locations.{
  AddSteps, add_chunk_location, insert_location, increment_chunk_replicas, increment_row, activate,
  stored_row, has_node,
}
use cyxcloud.Transfers.{
  ChunkClient, TransferSteps, look_up, TransferError, Outcome, get_node_by_peer_id, record_location,
  after_verify, after_store, after_get, between_nodes, transfer_chunk, push_successful,
  invalid_length, transfer_to_multiple,
}

abbrev pub IsLocated : List ℕ → ℕ → Catalog → Type 0
IsLocated id node c = (r : LocationRow) × (get (id, node) c.locations ≡ some r)

-- The nodes are the same, and no location is lost.
abbrev Keeps : Catalog → Catalog → Type 0
Keeps c c' =
    (c'.nodes ≡ c.nodes) × ((id : List ℕ) (node : ℕ) → IsLocated id node c → IsLocated id node c')

Keeps-refl : (c : Catalog) → Keeps c c
Keeps-refl c = (refl, λ id node l. l)

Keeps-trans : (b c d : Catalog) → Keeps b c → Keeps c d → Keeps b d
Keeps-trans b c d h k = (k.0 ∙ h.0, λ id node l. k.1 id node (h.1 id node l))

insert-IsLocated :
    (id : List ℕ) (node : ℕ) (c : Catalog) → IsLocated id node (insert_location id node c)
unfolding insert_location
insert-IsLocated id node c =
    let r = stored_row id node (get (id, node) c.locations) in
    (
      r,
      get-insert (id, node) (id, node) r c.locations
          ∙ ap (λ b. if b then some r else get (id, node) c.locations)
              (=?_refl {A = List ℕ × ℕ} (id, node)),
    )

insert-Keeps : (id : List ℕ) (node : ℕ) (c : Catalog) → Keeps c (insert_location id node c)
unfolding insert_location
insert-Keeps id node c =
    (refl, λ j m l. kept j m l (Bool-cases (◌=?◌ {K = List ℕ × ℕ} (id, node) (j, m))))
  where
    kept :
        (j : List ℕ) (m : ℕ)
        → IsLocated j m c
        → (◌=?◌ {K = List ℕ × ℕ} (id, node) (j, m) ≡ true)
          ⊎ (◌=?◌ {K = List ℕ × ℕ} (id, node) (j, m) ≡ false)
        → IsLocated j m (insert_location id node c)
    kept j m (r, e) (inl t) =
        let new = stored_row id node (get (id, node) c.locations) in
        (
          new,
          get-insert (id, node) (j, m) new c.locations
              ∙ ap (λ b. if b then some new else get (j, m) c.locations) t,
        )
    kept j m (r, e) (inr t) =
        let new = stored_row id node (get (id, node) c.locations) in
        (
          r,
          get-insert (id, node) (j, m) new c.locations
              ∙ ap (λ b. if b then some new else get (j, m) c.locations) t
              ∙ e,
        )

-- The same nodes and the same locations.
abbrev Same : Catalog → Catalog → Type 0
Same d c = (d.nodes ≡ c.nodes) × (d.locations ≡ c.locations)

activate-Same :
    (marks : Bool) (id : List ℕ) (c : Catalog) (n : ℕ) → Same (activate marks id (c, some n)).0 c
unfolding update_chunk_status
activate-Same marks id c n = by_count (n == 1) marks
  where
    by_count :
        (b m : Bool)
        → let out : Catalog × Bool =
            if b
            then (if m then (update_chunk_status id "active" c, true) else (c, false))
            else (c, true) in
          Same out.0 c
    by_count true true = (refl, refl)
    by_count true false = (refl, refl)
    by_count false m = (refl, refl)

-- Counting a replica and setting its status change neither the nodes nor the locations.
count-Same :
    (s : AddSteps) (id : List ℕ) (o : Option ChunkRow) (c : Catalog)
    → let out : Catalog × Bool =
        if s.counts then activate s.marks id (increment_row id o c) else (c, false) in
      Same out.0 c
count-Same s id o c = by_counts s.counts (activate s.marks id (increment_row id o c)) (counted o)
  where
    counted : (o : Option ChunkRow) → Same (activate s.marks id (increment_row id o c)).0 c
    counted none = (refl, refl)
    counted (some k) =
        activate-Same s.marks id (increment_row id (some k) c).0 (k.current_replicas + 1)

    by_counts :
        (b : Bool) (x : Catalog × Bool)
        → Same x.0 c
        → let out : Catalog × Bool = if b then x else (c, false) in Same out.0 c
    by_counts true x h = h
    by_counts false x h = (refl, refl)

add_chunk_location-Keeps :
    (s : AddSteps) (id : List ℕ) (node : ℕ) (c : Catalog)
    → Keeps c (add_chunk_location s id node c).0
      × ((add_chunk_location s id node c).1 ≡ true
          → IsLocated id node (add_chunk_location s id node c).0)
unfolding add_chunk_location increment_chunk_replicas
add_chunk_location-Keeps s id node c = elim (Bool-cases (s.inserts && has_node node c.nodes)) [
  | inr f ↦ rw f (Keeps-refl c, λ h. absurd (ground arith))
  | inl t ↦
      let d = insert_location id node c in
      let same = count-Same s id (get id d.chunks) d in
      let out : Catalog × Bool =
        if s.counts
        then activate s.marks id (increment_row id (get id d.chunks) d)
        else (d, false) in
      let located : (j : List ℕ) (m : ℕ) → IsLocated j m d → IsLocated j m out.0 =
        λ j m l. (l.0, ap (get (j, m)) same.1 ∙ l.1) in
      rw t (
        Keeps-trans c d out.0 (insert-Keeps id node c) (same.0, located),
        λ h. located id node (insert-IsLocated id node c),
      )
]

-- What a copy to a target leaves: nothing is lost, and where it succeeds the target has the chunk.
abbrev pub IsRecorded : List ℕ → Catalog → String → Type 0
IsRecorded id c peer =
    (n : StorageNode) × (get_node_by_peer_id peer c ≡ some n) × IsLocated id n.id c

kept-IsRecorded :
    (id : List ℕ) (c d : Catalog) → Keeps c d → (p : String) → IsRecorded id c p → IsRecorded id d p
unfolding get_node_by_peer_id
kept-IsRecorded id c d k p (n, e, l) = (n, ap (peer_in p) k.0 ∙ e, k.1 id n.id l)
  where
    peer_in : String → List StorageNode → Option StorageNode
    peer_in q nodes = first_row (select (λ n. n.peer_id =? q) nodes)

module _ {N : Type 0} (client : ChunkClient N) (id : List ℕ) where
  abbrev Leaves : Catalog → String → Outcome client id → Type 0
  Leaves c peer ((nodes, d), answer) = Keeps c d × (answer ≡ ok tt → IsRecorded id d peer)

  failing :
      (c : Catalog) (peer : String) (nodes : N) (e : TransferError)
      → Leaves c peer ((nodes, c), err e)
  failing c peer nodes e = (Keeps-refl c, λ h. absurd (ground arith))

  module _ (s : AddSteps) (t : StorageNode) (c : Catalog) (peer : String)
      (found : get_node_by_peer_id peer c ≡ some t) where
    location-Leaves :
        (nodes : N) (out : Catalog × Bool)
        → Keeps c out.0
        → (out.1 ≡ true → IsLocated id t.id out.0)
        → Leaves c peer (record_location client id nodes out)
    unfolding get_node_by_peer_id
    location-Leaves nodes (d, true) k l =
        (k, λ h. (t, ap (λ ns. first_row (select (λ n. n.peer_id =? peer) ns)) k.0 ∙ found, l refl))
    location-Leaves nodes (d, false) k l = (k, λ h. absurd (ground arith))

    verify-Leaves :
        (nodes : N) (r : Result String Bool) → Leaves c peer (after_verify client id s t nodes c r)
    verify-Leaves nodes (err e) = failing c peer nodes _
    verify-Leaves nodes (ok false) = failing c peer nodes _
    verify-Leaves nodes (ok true) =
        let (k, l) = add_chunk_location-Keeps s id t.id c in
        location-Leaves nodes (add_chunk_location s id t.id c) k l

    store-Leaves :
        (r : N × Result String (Unit {0})) → Leaves c peer (after_store client id s t c r)
    store-Leaves (nodes, err e) = failing c peer nodes _
    store-Leaves (nodes, ok u) = verify-Leaves nodes _

    get-Leaves :
        (nodes : N) (r : Result String (Option (List ℕ)))
        → Leaves c peer (after_get client id s t nodes c r)
    get-Leaves nodes (err e) = failing c peer nodes _
    get-Leaves nodes (ok none) = failing c peer nodes _
    get-Leaves nodes (ok (some bytes)) = store-Leaves _

  found_node :
      (b : Bool) (o : Option StorageNode) (t : StorageNode) → look_up b o ≡ ok (some t) → o ≡ some t
  found_node false o t h = absurd (ground arith)
  found_node true o t h = ok_injective h

  between-Leaves :
      (s : AddSteps) (source target : String) (r : Result TransferError (Option StorageNode))
      (b : Bool) (o : Result TransferError (Option StorageNode)) (nodes : N) (c : Catalog)
      → look_up b (get_node_by_peer_id target c) ≡ o
      → Leaves c target (between_nodes client id s source target r o nodes c)
  between-Leaves s source target (err e) b o nodes c h = failing c target nodes _
  between-Leaves s source target (ok none) b o nodes c h = failing c target nodes _
  between-Leaves s source target (ok (some a)) b (err e) nodes c h = failing c target nodes _
  between-Leaves s source target (ok (some a)) b (ok none) nodes c h = failing c target nodes _
  between-Leaves s source target (ok (some a)) b (ok (some t)) nodes c h =
      by_length nodes (after_get client id s t nodes c (client.get_chunk a.grpc_address id nodes))
        (get-Leaves s t c target (found_node b (get_node_by_peer_id target c) t h) nodes
          (client.get_chunk a.grpc_address id nodes))
        (length id == 32)
    where
      by_length :
          (ns : N) (out : Outcome client id)
          → Leaves c target out
          → (b : Bool)
          → Leaves c target (if b then out else ((ns, c), err (invalid_length (length id))))
      by_length ns out l true = l
      by_length ns out l false = failing c target ns (invalid_length (length id))

  push-IsRecorded :
      (d : Catalog) (t : String) (ts rest : List String) (answer : Result TransferError (Unit {0}))
      → (answer ≡ ok tt → IsRecorded id d t)
      → All (IsRecorded id d) rest
      → Part rest ts
      → All (IsRecorded id d) (push_successful client id t answer rest)
        × Part (push_successful client id t answer rest) (t ∷ ts)
  push-IsRecorded d t ts rest (ok u) h a p = ((h refl, a), inl (refl, p))
  push-IsRecorded d t ts rest (err e) h a p = (a, Part-skip t rest ts p)

  -- Whichever statements fail, the targets that a transfer reports are some of those asked for, each a node
  -- whose location of the chunk is in the catalogue afterwards; the nodes stay and no location is lost.
  pub transfer_to_multiple-IsRecorded :
      (s : ℕ → TransferSteps) (source : String) (targets : List String) (nodes : N) (c : Catalog)
      → let out = transfer_to_multiple client id s source targets nodes c in
        All (IsRecorded id out.0.1) out.1
        × Part out.1 targets
        × (out.0.1.nodes ≡ c.nodes)
        × ((j : List ℕ) (node : ℕ) → IsLocated j node c → IsLocated j node out.0.1)
  unfolding transfer_to_multiple transfer_chunk
  transfer_to_multiple-IsRecorded s source [] nodes c = (tt, refl, refl, λ j node l. l)
  transfer_to_multiple-IsRecorded s source (t ∷ ts) nodes c =
      let out = transfer_chunk client id (s 0) source t nodes c in
      let (kept, done) =
        between-Leaves (s 0).adds source t
          (look_up (s 0).finds_source (get_node_by_peer_id source c)) (s 0).finds_target
          (look_up (s 0).finds_target (get_node_by_peer_id t c)) nodes c refl in
      let (all, part, same, located) =
        transfer_to_multiple-IsRecorded (λ i. s (suc i)) source ts out.0.0 out.0.1 in
      let end = (transfer_to_multiple client id (λ i. s (suc i)) source ts out.0.0 out.0.1).0.1 in
      let reported =
        push-IsRecorded end t ts
          (transfer_to_multiple client id (λ i. s (suc i)) source ts out.0.0 out.0.1).1 out.1
          (λ h. kept-IsRecorded id out.0.1 end (same, located) t (done h)) all part in
      let whole = Keeps-trans c out.0.1 end kept (same, located) in
      (reported.0, reported.1, whole.0, whole.1)
