-- ===== src/Rtp.antt =====
-- src/rtp.hh and src/rtp.cc.
pub mod Receive
pub mod Encode
pub mod RoundTrip
pub mod Safety
pub mod Context
