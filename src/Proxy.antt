-- ===== src/Proxy.antt =====
-- The chat-completions proxy: portable-brain-proxy/crates/cortex-app/src/proxy.rs and types.rs.
pub mod Types
pub mod Answer
pub mod Planning
pub mod Chat
