-- ===== src/Oram.antt =====
-- The class `ORAM` of path-oram/src/oram.cpp.
pub mod Store
pub mod State
pub mod Cache
pub mod Eviction
pub mod Access
pub mod Loading
pub mod Invariant
pub mod Construction
pub mod Stack
pub mod Nested
