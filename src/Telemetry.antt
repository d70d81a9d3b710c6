-- ===== src/Telemetry.antt =====
-- From sensor readings to frames (platformio/src/radio/PacketHandler.cpp).
pub mod Types
pub mod Delta
pub mod Handler
