-- ===== src/Iterator.antt =====
-- opc-da-client/src/opc_da/client/iterator.rs: the iterators over COM enumerators.
pub mod Strings
pub mod Slots
pub mod Progress
pub mod Repeats
pub mod Ownership
mod Tests
