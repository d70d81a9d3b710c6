-- ===== src/BaseApp.antt =====
-- SmartFiresBaseApp (platformio/src/app/SmartFiresBaseApp.cpp): what the base station does with the frames of
-- its nodes and with the commands on its serial line, and what it sends in its slot.
pub mod Tracker
pub mod Flush
pub mod Assign
pub mod Uart
pub mod Acked
pub mod Receipts
pub mod Frames
pub mod Summaries
pub mod State
pub mod Jetson
pub mod Incoming
pub mod Loop
pub mod Assigned
pub mod OneSend
pub mod Sound
pub mod Update
pub mod Reachable
pub mod Relay
pub mod SoftReset
pub mod Reply
pub mod Readdress
mod Checks
mod LoopChecks
