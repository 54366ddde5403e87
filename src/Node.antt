-- ===== src/Node.antt =====
-- The part of `UnicoreNode`, src/unicore_node.cpp, that keeps and chooses the data.
pub mod State
pub mod Active
pub mod Publish
pub mod Process
pub mod Fresh
pub mod Apart
pub mod History
pub mod Rtcm
pub mod Open
pub mod Delivery
pub mod Poll
pub mod Arrival
pub mod Diagnostic
