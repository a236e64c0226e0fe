-- ===== src/Srtp.antt =====
-- src/srtp: encryption and authentication of RTP packets. The ciphers and the hash are Crypto++'s and
-- stand as functions that the definitions take.
pub mod Base
pub mod Packets
pub mod Iv
pub mod Keys
pub mod RoundTrip
pub mod Rollover
pub mod Control
pub mod ControlTrip
