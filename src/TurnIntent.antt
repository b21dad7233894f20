-- ===== src/TurnIntent.antt =====
-- CORE/runtime/turn_intent.py: the table of turn intents and `resolve_turn_intent`. The payload
-- hash, SHA-256 over the canonical JSON of the profile, is a parameter.
pub mod Table
pub mod Resolve
pub mod Tests
