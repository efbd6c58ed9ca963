-- ===== src/Polars.antt =====
-- The crate `bastionlab_polars`: policies, composite plans, and the data frame service.
pub mod AccessControl
pub mod AggCheck
pub mod Fetch
pub mod Plan
pub mod Query
pub mod Run
pub mod Service
pub mod Stats
pub mod Stream
