-- ===== src/Examples.antt =====
-- Concrete parameters, a manifest and plans, and the theorems at them.
mod Inputs
mod Witnesses
mod Operations
mod Service
mod Toy
mod Brains
mod BrainEdits
mod BrainStates
mod Proxies
mod Texts
