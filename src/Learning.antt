-- ===== src/Learning.antt =====
-- The crate `bastionlab_learning`: byte streams, privacy accounting, data sets, training.
pub mod Bytes
pub mod Numbers
pub mod Samples
pub mod Privacy
pub mod Iterator
pub mod Loading
pub mod CheckPoints
pub mod Data
pub mod Metrics
pub mod Procedures
pub mod Training
pub mod Optim
