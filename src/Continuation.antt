-- ===== src/Continuation.antt =====
-- CORE/runtime/continuation_policy.py: `decide_turn_close` and what it reads of a resolution.
-- A resolution is a JSON object. A text marker outside ASCII is written as it is in the source.
pub mod Reading
pub mod Policy
pub mod Laws
pub mod Tests
