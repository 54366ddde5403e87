-- ===== src/Report.antt =====
-- The diagnostics of `UnicoreNode`, src/unicore_node.cpp: the texts and the statuses that
-- `publish_diagnostics` sends.
pub mod Describe
pub mod Counts
pub mod Status
pub mod Parser
pub mod Rtk
pub mod Rf
pub mod Caster
pub mod Fix
pub mod Satellites
pub mod Sky
pub mod Raw
pub mod Publish
pub mod Verdict
pub mod Anomalies
pub mod Order
pub mod Tally
pub mod Sums
pub mod Construct
pub mod Window
pub mod Quiet
pub mod Hardware
pub mod Jamming
