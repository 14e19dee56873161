-- ===== src/Planner.antt =====
-- The planner guard (portable-brain-proxy/crates/planner-guard/src/lib.rs): the plans that a language
-- model proposes are parsed from JSON and checked against the manifest, and a fixed plan stands by.
pub mod Json
pub mod Parse
pub mod PlanJson
pub mod Guard
pub mod Extract
pub mod Fallback
pub mod Agreement
