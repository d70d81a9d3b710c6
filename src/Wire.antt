-- ===== src/Wire.antt =====
-- The binary wire format (platformio/include/telemetry/BinaryPacket.h).
pub mod Crc
pub mod Packet
pub mod Layout
pub mod Fits
pub mod ReadBack
pub mod Constants
pub mod Encode
pub mod Decode
pub mod RoundTrip
pub mod MarkerTrip
pub mod BundleTrip
mod Checks
