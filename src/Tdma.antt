-- ===== src/Tdma.antt =====
-- The TDMA radio layer (platformio/include/radio, platformio/src/radio).
pub mod Clock
pub mod TxQueue
pub mod Radio
