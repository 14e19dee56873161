-- ===== src/Kernel.antt =====
-- crates/rmvm-kernel/src/kernel.rs: the virtual machine that executes a plan over a manifest.
pub mod Types
pub mod Values
pub mod Fields
pub mod Params
pub mod Budget
pub mod Static
pub mod Fetch
pub mod Selector
pub mod Resolve
pub mod Filter
pub mod Join
pub mod Project
pub mod Assert
pub mod Merkle
pub mod Render
pub mod Execute
pub mod Sound
pub mod Scoping
pub mod Selection
