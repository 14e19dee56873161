-- ===== src/Proto.antt =====
-- crates/rmvm-proto: the messages of cortex_rmvm_v3_1.proto and the functions of src/lib.rs.
pub mod Enums
pub mod Float
pub mod Messages
pub mod Canonical
