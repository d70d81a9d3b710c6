-- ===== src/Config.antt =====
-- Compile-time configuration (platformio/include/config) and the airtime formula that validates it
-- (platformio/include/radio/LoRaAirtime.h).
pub mod Airtime
pub mod Profile
