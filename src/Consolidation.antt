-- ===== src/Consolidation.antt =====
-- CORE/runtime/memory_consolidation.py: bounded suggestions on the memory cards of one scope.
pub mod Tokens
pub mod Cards
pub mod Suggestion
pub mod Plan
pub mod Counts
pub mod Outcomes
pub mod Founded
pub mod Sources
pub mod Duplicates
mod Tests
