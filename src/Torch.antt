-- ===== src/Torch.antt =====
-- The crate `bastionlab_torch`: models and datasets as artifacts, and their streams.
pub mod Stream
pub mod Names
pub mod State
pub mod Service
pub mod Transfers
pub mod Runs
pub mod Aside
pub mod Histories
mod Tests
