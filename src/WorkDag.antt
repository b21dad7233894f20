-- ===== src/WorkDag.antt =====
-- CORE/runtime/work_dag.py: the dependency graph of a plan, bound to one revision of an execution
-- contract, its validation, its projection and its storage.
pub mod Contract
pub mod Graph
pub mod Definition
pub mod State
pub mod Projection
pub mod Store
pub mod Inversion
pub mod Normal
pub mod Swap
pub mod Plan
pub mod Progress
pub mod Running
pub mod Total
pub mod Order
pub mod View
pub mod Accepts
pub mod Valid
pub mod Seeding
pub mod Seeds
pub mod Complete
pub mod Default
pub mod Rounds
pub mod Compact
pub mod Acyclic
pub mod Search
pub mod Cycles
pub mod Tests
