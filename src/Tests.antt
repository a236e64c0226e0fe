-- ===== src/Tests.antt =====
-- The theorems at concrete inputs.
pub mod Transport
pub mod Control
pub mod Security
pub mod Video
pub mod Flow
pub mod Incoming
pub mod Fragments
pub mod StartCodes
pub mod Reports
