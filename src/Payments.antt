-- ===== src/Payments.antt =====
-- The payments of cyxcloud-gateway/src/payment_daemon.rs with the tables of
-- cyxcloud-metadata/migrations/005_uptime_tracking.sql, their statements in
-- cyxcloud-metadata/src/postgres.rs and the weights of cyxcloud-metadata/src/models.rs. Payments/Ledger is
-- the tables and statements, Payments/Weights the weights, Payments/Daemon and Payments/Payout the daemon. The payment program
-- on the chain is a parameter; the calls that it receives are kept in a list.
pub mod Steps
pub mod Ledger
pub mod Weights
pub mod Daemon
pub mod Payout
pub mod Shares
pub mod Frames
pub mod Epochs
pub mod DryRun
pub mod Progress
pub mod Advance
pub mod Uptime
mod Tests
