-- ===== src/ReceptionFlow.antt =====
-- src/reception_flow.cc: the ring buffer between the receiving and the processing thread.
pub mod Ring
pub mod Queue
pub mod RingLaws
pub mod Refine
pub mod Process
pub mod Fifo
pub mod Delivery
pub mod Flow
pub mod Dispatch
pub mod FlowLaws
pub mod Getter
