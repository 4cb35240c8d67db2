-- ===== src/Rebalancer.antt =====
-- The crate cyxcloud-rebalancer: the detector finds chunks with too few replicas, the planner turns the
-- issues into tasks and the executor runs the tasks with retries.
pub mod Detector
pub mod Planner
pub mod Executor
pub mod Scan
pub mod Targets
pub mod Limits
pub mod Retries
pub mod Report
mod Tests
