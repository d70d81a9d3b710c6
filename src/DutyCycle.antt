-- ===== src/DutyCycle.antt =====
-- DutyCycleController (platformio/src/power/DutyCycleController.cpp): when the node samples and when it
-- sleeps.
pub mod Types
pub mod Controller
pub mod Update
pub mod Sampled
pub mod Phases
pub mod Periods
mod Checks
