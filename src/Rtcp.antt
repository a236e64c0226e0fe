-- ===== src/Rtcp.antt =====
-- src/rtcp.cc and src/rtcp_packets.cc: control packets, and the statistics of the participants.
pub mod Packets
pub mod Read
pub mod RoundTrip
pub mod Participants
pub mod Incoming
pub mod Compound
pub mod Capacity
pub mod Walk
pub mod Steps
pub mod Handlers
pub mod AppTrip
pub mod Sequence
pub mod Losses
pub mod Admission
pub mod Loss
pub mod Report
pub mod Refused
pub mod Sdes
pub mod Named
pub mod Kept
pub mod Carried
pub mod AppSizes
pub mod ReportSizes
pub mod RestSizes
pub mod Room
