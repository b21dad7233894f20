-- ===== src/Broker.antt =====
-- CORE/runtime/scope_broker.py, the Scope Broker.
pub mod Types
pub mod Upkeep
pub mod Checked
pub mod Registry
pub mod Channels
pub mod Pairing
pub mod Grants
pub mod Leases
pub mod Expiry
pub mod Frame
pub mod Keeps
pub mod Closing
pub mod Attach
pub mod Consume
pub mod Reach
pub mod GrantMoves
pub mod Ungranted
pub mod UngrantedPairing
pub mod Granting
pub mod Spent
pub mod Authority
pub mod OneShot
pub mod Contract
pub mod Durable
pub mod File
pub mod Register
pub mod Workline
pub mod Refresh
pub mod Ledger
pub mod Refines
pub mod Printed
pub mod Rebinding
pub mod Refreshed
pub mod Entitled
pub mod Stores
pub mod Growth
pub mod Tests
mod DurableTests
