-- ===== src/Grpc.antt =====
-- The service of crates/rmvm-grpc/src/lib.rs: the handlers as functions of the service's state.
pub mod Service
pub mod Handles
pub mod Forgotten
pub mod Stated
pub mod Appended
pub mod Runs
