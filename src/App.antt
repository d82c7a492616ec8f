-- ===== src/App.antt =====
-- opc-cli/src/app.rs and opc-cli/src/main.rs: the terminal interface.
pub mod State
pub mod Select
pub mod Search
pub mod Parse
pub mod Tasks
pub mod Poll
pub mod Keys
pub mod Run
pub mod Messages
pub mod Invariant
pub mod Selection
pub mod SearchLaws
pub mod SearchCycle
pub mod Flow
pub mod Outcome
pub mod Reads
pub mod Exit
pub mod ParseLaws
mod Fixtures
mod Tests
mod TaskTests
