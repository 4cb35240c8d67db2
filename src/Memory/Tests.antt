-- ===== src/Memory/Tests.antt =====
-- A small backend: a store, a refusal, a deletion.
use cyxcloud.Prelude.{ℕ, ◌≡◌, ◌≤◌, refl, List, [], ◌∷◌, false, number_key, arith}
use cyxcloud.Prelude.Assoc.{get as lookup, insert}
use cyxcloud.Prelude.Results.{err}
use cyxcloud.Error.{storage_full}
use cyxcloud.Memory.{
  MemoryBackend, stores, reads_one, deletes_one, with_capacity, put, store, has_room, run,
  bytes_available, is_full, stats,
}
use cyxcloud.Memory.Accounting.{Accounts, total, run-Accounts}
use cyxcloud.Memory.Capacity.{Request, puts, deletes, serve_all, serve_all-capacity}

abbrev two : List ℕ
two = 8 ∷ 9 ∷ []

abbrev used : MemoryBackend ℕ ℕ
used = record {
  chunks = (1, two) ∷ [];
  max_capacity = 3;
  bytes_used = 2;
  reads = 0;
  writes = 1;
  deletes = 0;
}

puts_one : (put 1 two (with_capacity 3)).0 ≡ used
unfolding put store has_room with_capacity insert lookup
puts_one = refl

-- The chunk that is replaced counts against the capacity.
replacement_refused : put 1 two used ≡ (used, err (storage_full 2 3))
unfolding put has_room
replacement_refused = refl

available : bytes_available (stats used) ≡ 1
unfolding bytes_available stats
available = refl

not_full : is_full (stats used) ≡ false
unfolding is_full stats
not_full = refl

run-Accounts_example :
    Accounts (run used (stores 1 (7 ∷ []) ∷ deletes_one 1 ∷ stores 2 two ∷ reads_one 2 ∷ []))
run-Accounts_example =
    run-Accounts (stores 1 (7 ∷ []) ∷ deletes_one 1 ∷ stores 2 two ∷ reads_one 2 ∷ []) used
      ((tt, tt), unfold total in refl)

abbrev calls : List (Request ℕ ℕ)
calls = puts 1 two ∷ puts 2 two ∷ deletes 1 ∷ puts 2 two ∷ []

serve_all-capacity_example :
    let m = serve_all (with_capacity 3) calls in
    (total m.chunks ≤ 3) × (m.bytes_used ≡ total m.chunks)
serve_all-capacity_example =
    serve_all-capacity 3 (omega arith) (omega arith) calls
      (omega arith, (omega arith, (tt, (omega arith, tt))))
