-- ===== src/Worker.antt =====
-- opc-da-client/src/com_worker.rs and com_worker/: the operations that the worker runs on a connected
-- server, the pool of connections with its one retry, and the loop over the requests.
pub mod Groups
pub mod Read
pub mod Write
pub mod Cleanup
pub mod LeftGroup
pub mod Values
pub mod Browse
pub mod Names
pub mod Sink
pub mod Position
pub mod Restored
pub mod Again
pub mod Asked
pub mod Ends
pub mod Requests
pub mod Undelivered
pub mod Limits
pub mod Connection
pub mod Retry
mod Depot
mod Tests
