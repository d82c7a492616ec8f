-- ===== src/Inventory.antt =====
-- opc-da-client/src/inventory.rs and opc-da-client/src/inventory/: the traversal of a server's address
-- space that sends each item once, page by page.
pub mod State
pub mod Boundary
pub mod Pacing
pub mod Context
pub mod Navigation
pub mod Capabilities
pub mod Da2
pub mod Moved
pub mod MovedTo
pub mod Synced
pub mod SyncedPages
pub mod PageTotal
pub mod PageNames
pub mod PageReturns
pub mod Progress
pub mod Da3
pub mod Nodes
pub mod Walk
pub mod Run
pub mod Entries
pub mod Continuations
pub mod Taken
pub mod Complete
pub mod Once
pub mod Items
pub mod Turned
pub mod Reported
mod Tests
mod PageTests
