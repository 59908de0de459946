-- ===== src/Tests.antt =====
-- Concrete inputs for the theorems.
mod Restart
mod Fixtures
mod Msgp
mod Wire
mod Network
mod SetServed
mod Clock
mod Registers
mod Counters
mod Windows
mod Logs
mod Overwritten
mod Nodes
mod Sending
mod Persisted
mod Calls
