-- ===== src/Common.antt =====
-- The crate `bastionlab_common`, and the errors of the services.
pub mod Status
pub mod Action
pub mod Auth
pub mod Session
