-- ===== src/Browse.antt =====
-- opc-da-client/src/native_browse.rs and opc-da-client/src/native_browse/: sessions that browse the
-- address space of a server page by page, with tokens for nodes and pages.
pub mod Buffer
pub mod State
pub mod Path
pub mod Da3
pub mod Da2
pub mod Capabilities
pub mod Sessions
pub mod Tokens
pub mod Sound
pub mod SoundPages
pub mod SoundSessions
pub mod Limits
pub mod Serve
pub mod Consumed
pub mod Closed
pub mod Finite
pub mod Termination
pub mod PageReturns
pub mod PageSize
pub mod Levels
pub mod Cursor
mod Tests
