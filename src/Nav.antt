-- ===== src/Nav.antt =====
-- The messages of src/unicore_binary_nav.cpp.
pub mod Names
pub mod Status
pub mod BestSat
pub mod Signals
pub mod Tracking
pub mod Fields
pub mod Accepts
pub mod Entries
pub mod Floating
pub mod SatsInfo
pub mod Observations
pub mod Counted
