-- ===== src/TxPower.antt =====
-- TxPowerController (platformio/include/radio/TxPowerController.h, platformio/src/radio): the base's
-- decisions on each node's transmit power.
pub mod Node
pub mod Controller
pub mod Table
pub mod Upsert
pub mod Decide
pub mod Step
pub mod Reports
pub mod Update
pub mod Samples
mod Checks
