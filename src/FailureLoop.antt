-- ===== src/FailureLoop.antt =====
-- CORE/runtime/failure_loop_guard.py, the guard against repeated repair attempts.
-- SHA-256 over canonical JSON is a parameter, `Hashing`. A receipt is a record: its field names
-- and the types of its fields, which `receipt_is_valid` tests first, are the record's own.
pub mod Decision
pub mod Guard
pub mod Decided
pub mod Retry
pub mod Handback
pub mod Replay
pub mod Tests
pub mod Receipts
pub mod Token
