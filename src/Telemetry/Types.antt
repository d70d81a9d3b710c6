-- ===== src/Telemetry/Types.antt =====
-- The types and constants of PacketHandler (platformio/include/radio/PacketHandler.h) and
-- SensorSnapshot (platformio/include/telemetry/SensorSnapshot.h). `F` is the type `float`.
use Prim.Native.Nat.{bit_and}
use smart_fires_io_t.Base.{ℕ, ◌==◌, Bool, not, List, [], Option, none, some, ltb, if◌then◌else◌}
use smart_fires_io_t.Base.Int.{ℤ, pos}
use smart_fires_io_t.Wire.Packet.{FullStatePayload, DeltaPayload}

abbrev pub wind_flag : ℕ
wind_flag = 0x01

abbrev pub sht31_flag : ℕ
sht31_flag = 0x02

abbrev pub gps_flag : ℕ
gps_flag = 0x04

abbrev pub sps30_flag : ℕ
sps30_flag = 0x10

-- What the code computes with `float`: the constant 0.0f, and the conversions
-- `(uint16_t)(x * 100.0f + 0.5f)`, `(uint16_t)(x * 10.0f + 0.5f)`, `(int16_t)(x * 100.0f)` and
-- `(int32_t)(x * 1e7f)`.
pub record FloatOps (F : Type 0) : Type 0 where
  pub zero_float : F
  pub rounded_hundredths : F → ℕ
  pub rounded_tenths : F → ℕ
  pub signed_hundredths : F → ℤ
  pub e7 : F → ℤ

pub record SensorSnapshot (F : Type 0) : Type 0 where
  pub session_time_ms : ℕ
  pub sensor_flags : ℕ
  pub wind_mps : F
  pub temp_c : F
  pub humidity_pct : F
  pub pm1_0 : F
  pub pm2_5 : F
  pub pm4_0 : F
  pub pm10 : F
  pub lat_deg : F
  pub lon_deg : F
  pub battery_mv : ℕ
  pub battery_pct : ℕ
  pub battery_valid : Bool
  pub heading_deg : F
  pub heading_accuracy : ℕ
  pub imu_valid : Bool

-- The `_lastGood` fields.
pub record LastGood (F : Type 0) : Type 0 where
  pub wind_mps : F
  pub temp_c : F
  pub humidity_pct : F
  pub pm1_0 : F
  pub pm2_5 : F
  pub pm4_0 : F
  pub pm10 : F

pub record PacketHandler (F : Type 0) : Type 0 where
  pub node_id : ℕ
  pub max_deltas : ℕ
  pub status_interval_ms : ℕ
  pub seq : ℕ
  pub ref : FullStatePayload
  pub prev_sample : FullStatePayload
  pub deltas : List DeltaPayload
  pub has_ref : Bool
  pub bundle_ready : Bool
  pub bundle : List ℕ
  pub status_ever_sent : Bool
  pub last_status_ms : ℕ
  pub status_ready : Bool
  pub status : List ℕ
  pub bundle_encoding_enabled : Bool
  pub retx_total : ℕ
  pub fail_total : ℕ
  pub tx_power_dbm : ℤ
  pub tx_power_static : Bool
  pub last_good : LastGood F

abbrev pub has_flag : ℕ → ℕ → Bool
has_flag flags flag = not (bit_and flags flag == 0)

abbrev pub zero_state : FullStatePayload
zero_state = record {
  session_time = 0;
  sensor_flags = 0;
  wind_cms = 0;
  temp_cdegc = pos 0;
  humidity_cpct = 0;
  pm1_0_ug10 = 0;
  pm2_5_ug10 = 0;
  pm4_0_ug10 = 0;
  pm10_ug10 = 0;
}

-- The bytes that an encoder wrote; 0 bytes if it returned 0.
abbrev pub written_bytes : Option (List ℕ) → List ℕ
written_bytes none = []
written_bytes (some bytes) = bytes

-- A counter saturated at 16 bits.
abbrev pub saturate_u16 : ℕ → ℕ
saturate_u16 n = if ltb 0xffff n then 0xffff else n
