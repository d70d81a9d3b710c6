-- ===== src/Tdma/Radio.antt =====
-- TdmaRadioService (platformio/src/radio/TdmaRadioService.cpp): the node's radio loop.
pub mod Types
pub mod Window
pub mod Service
pub mod Receive
pub mod Drain
pub mod Count
pub mod Invariant
pub mod Attempts
pub mod Slots
pub mod Release
pub mod Pick
pub mod Profile
mod Checks
pub mod Frames
