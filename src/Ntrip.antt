-- ===== src/Ntrip.antt =====
-- `NTRIPClientNode`, ntrip_client_node/src/ntrip_client_node.cpp.
pub mod Config
pub mod Client
pub mod Threads
pub mod Settings
pub mod Valid
pub mod Header
pub mod Lost
pub mod Gga
pub mod Plain
pub mod ReadBack
pub mod Sentence
