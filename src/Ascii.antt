-- ===== src/Ascii.antt =====
-- The ASCII sentences of src/unicore_parser.cpp.
pub mod Numbers
pub mod Fields
pub mod Checksum
pub mod Names
pub mod Status
pub mod Satellites
pub mod Position
pub mod Line
pub mod Split
pub mod Trim
pub mod Hex
pub mod Accept
pub mod Sent
pub mod Outcome
pub mod Decimal
pub mod Agree
pub mod Counts
