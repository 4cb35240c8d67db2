-- ===== src/Lib.antt =====
-- CyxCloud: the core logic of a decentralised storage platform, in Rust. A file is cut into chunks that
-- are named by the hash of their contents; a chunk is erasure coded into shards, which are stored on
-- nodes; writes and reads of several nodes go by quorum; a rebalancer finds chunks with too few copies,
-- plans repairs and runs them; a circuit breaker guards calls of services that fail.
--
-- The modules and the code they model:
--   Error: cyxcloud-core/src/error.rs (CyxCloudError), with a panic as a second way to fail.
--   Breaker: cyxcloud-core/src/circuit_breaker.rs. `allow_request`, `record_success`, `record_failure` and
--     `call` keep their names, each as one step; `now` is the reading of the clock. Breaker/Threads has
--     their single lock and atomic operations (`tick`), which a schedule interleaves.
--   Erasure: cyxcloud-core/src/erasure.rs. `encode`, `decode`, `verify_shards` and the configuration. The
--     crate reed_solomon_erasure is a record of its three operations; its laws (IsLawful) are a hypothesis
--     of the round trip, which a mirror code satisfies in the tests.
--   Chunks: cyxcloud-core/src/chunk.rs. `split_into_chunks` and `reassemble_chunks`, with the hash as a
--     parameter.
--   Memory: cyxcloud-storage/src/memory.rs and backend.rs. Each method takes and returns the backend. `put`
--     is the test of the capacity followed by `store`, the part under the lock, since other threads
--     can come between.
--   Quorum: cyxcloud-metadata/src/quorum.rs. The requests of one operation are a function from a node to
--     the time and the result of its answer; timeouts are comparisons of those times.
--   Rebalancer: cyxcloud-rebalancer/src: Rebalancer/Detector is detector.rs, Rebalancer/Planner planner.rs
--     and Rebalancer/Executor executor.rs. A plan that Planner makes is what Executor runs. The arithmetic
--     of f64 is an interface (Floats).
--   Lifecycle: the node tables of cyxcloud-metadata/migrations/001_initial.sql with their statements in
--     cyxcloud-metadata/src/postgres.rs; Lifecycle/Monitor is cyxcloud-gateway/src/node_monitor.rs. The outcome
--     and the time of each statement are given to a cycle; statements by key run over Prelude/Rows.
--   Placement: cyxcloud-metadata/src/topology.rs. The selection of nodes for shards under the limits on
--     datacenters and racks (`select_nodes`, `select_for_shard`), its scores, `suggest_rebalance` and the
--     grouping by region.
--   Health: cyxcloud-metadata/src/health.rs. `check_node` over a checker that is a parameter, the registry of
--     results and its summary. Checks do not overlap, unless their two halves are taken one by one.
--   Payments: cyxcloud-gateway/src/payment_daemon.rs with the tables of
--     cyxcloud-metadata/migrations/005_uptime_tracking.sql, their statements in postgres.rs and the weights of
--     models.rs. Each statement goes through or fails as an argument says; a method is a step that ends where
--     a statement fails. The chain is a parameter; the calls it receives are kept in a list.
--   Catalog: the tables files, chunks, chunk_locations, buckets and repair_jobs of
--     cyxcloud-metadata/migrations/001_initial.sql with their statements in cyxcloud-metadata/src/postgres.rs,
--     under the names of the functions there. The statements of add_chunk_location, which run without a
--     transaction, go through or fail as an argument says.
--   Tokens: cyxcloud-gateway/src/data_access.rs over the tables data_access_tokens and dataset_shares
--     (cyxcloud-metadata/src/postgres.rs); Service has create_token, verify_token and revoke_token.
--   Transfers: cyxcloud-rebalancer/src/transfer.rs over the statements of Catalog; run_transfer is the function
--     of create_transfer_fn, which the executor of Rebalancer calls.
--   Prelude: tests on numbers, lists, association lists for HashMap, tables of rows, sorting, results.
-- Beside each of these stand modules for what is proved and one with tests.
--
-- Numbers are natural numbers; where the code's integers wrap, the wrapping is written out (counters of 64
-- bits in Breaker and Memory, indices of 8 and 32 bits in Erasure and Chunks). Loops are recursive on their
-- list, or on the number of attempts that the code itself bounds (max_retries + 1), so that no fuel is
-- needed.
--
-- Left out: the persistent backends, the network, the HTTP layers and the blockchain clients, which are
-- calls of libraries and services; the gateway's object store and the users and datasets of the database;
-- durations and log messages; f64 values that are only shown.
pub mod Prelude
pub mod Error
pub mod Breaker
pub mod Erasure
pub mod Chunks
pub mod Quorum
pub mod Memory
pub mod Rebalancer
pub mod Lifecycle
pub mod Placement
pub mod Health
pub mod Payments
pub mod Catalog
pub mod Tokens
pub mod Transfers
