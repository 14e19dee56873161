-- ===== src/Brain.antt =====
-- The brain store (portable-brain-proxy/crates/brain-store/src/lib.rs): signed and encrypted brains in
-- a home directory, their branches, merges, grants and audit log, and the API keys.
pub mod Types
pub mod Vault
pub mod Disk
pub mod Slug
pub mod State
pub mod Resolve
pub mod Store
pub mod Edit
