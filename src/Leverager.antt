-- ===== src/Leverager.antt =====
-- The leverager, logics/impls/leverager.rs and contracts/leverager/lib.rs: its storage, what it calls,
-- its views and its two loops.
pub mod Environment
pub mod Views
pub mod Looping
pub mod Closing
pub mod Tests
