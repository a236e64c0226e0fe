-- ===== src/H26x.antt =====
-- src/formats/h26x.cc, h264.cc, h265.cc and h266.cc: how NAL units become packets and packets NAL
-- units.
pub mod Headers
pub mod Fragments
pub mod Aggregation
pub mod HeaderLaws
pub mod AggregationLaws
pub mod Reassembly
pub mod Receive
pub mod Duplicates
pub mod Joins
pub mod ZeroBytes
pub mod StartCode
pub mod Scan
pub mod Search
pub mod SearchByte
pub mod Reference
pub mod FindsFirst
pub mod Push
pub mod Sound
pub mod Tiles
pub mod Lost
