-- ===== src/Wire/Packet.antt =====
-- The packed structs of BinaryPacket.h. A signed field is an integer, any other a number.
use smart_fires_io_t.Base.{ℕ}
use smart_fires_io_t.Base.Int.{ℤ}

pub record PktHeader : Type 0 where
  pub magic : ℕ
  pub pkt_type : ℕ
  pub node_id : ℕ
  pub seq : ℕ
  pub flags : ℕ

pub record AwakenPayload : Type 0 where
  pub uid_hash : ℕ
  pub reset_cause : ℕ
  pub hang_zone : ℕ

pub record NetworkProfilePayload : Type 0 where
  pub schema_version : ℕ
  pub profile_id : ℕ
  pub spreading_factor : ℕ
  pub coding_rate_denominator : ℕ
  pub bandwidth_hz : ℕ
  pub num_slots : ℕ
  pub slot_width_ms : ℕ
  pub guard_ms : ℕ
  pub max_bundle_deltas : ℕ
  pub continuous_sample_period_ms : ℕ
  pub timed_sample_period_ms : ℕ
  pub status_interval_ms : ℕ
  pub fingerprint : ℕ

pub record WindowMarkerPayload : Type 0 where
  pub session_time_ms : ℕ
  pub planned_sleep_ms : ℕ
  pub window_id : ℕ
  pub sample_count : ℕ

pub record FullStatePayload : Type 0 where
  pub session_time : ℕ
  pub sensor_flags : ℕ
  pub wind_cms : ℕ
  pub temp_cdegc : ℤ
  pub humidity_cpct : ℕ
  pub pm1_0_ug10 : ℕ
  pub pm2_5_ug10 : ℕ
  pub pm4_0_ug10 : ℕ
  pub pm10_ug10 : ℕ

pub record StatusPayload : Type 0 where
  pub lat_e7 : ℤ
  pub lon_e7 : ℤ
  pub battery_mv : ℕ
  pub battery_pct : ℕ
  pub flags : ℕ
  pub heading_deg_x10 : ℕ
  pub heading_accuracy : ℕ
  pub retx_total : ℕ
  pub fail_total : ℕ
  pub tx_power_dbm : ℤ

pub record CmdCalibratePayload : Type 0 where
  pub node_id : ℕ
  pub duration_s : ℕ

pub record CmdResetPayload : Type 0 where
  pub node_id : ℕ
  pub reset_type : ℕ

pub record CmdSetTxPowerPayload : Type 0 where
  pub node_id : ℕ
  pub tx_power_dbm : ℤ
  pub mode : ℕ

pub record CmdAckPayload : Type 0 where
  pub cmd_type : ℕ
  pub uid_hash : ℕ
  pub status : ℕ

pub record TimeSyncPayload : Type 0 where
  pub session_id : ℕ
  pub session_time_ms : ℕ

pub record AckSummaryPayload : Type 0 where
  pub node_id : ℕ
  pub ack_base_seq : ℕ
  pub ack_mask : ℕ

pub record DeltaPayload : Type 0 where
  pub dt_ticks_250ms : ℕ
  pub wind_cms : ℕ
  pub temp_delta_deci_c : ℤ
  pub humidity_delta_0p2pct : ℤ
  pub pm1_0_delta_ug : ℤ
  pub pm2_5_delta_ug10 : ℤ
  pub pm4_0_delta_ug : ℤ
  pub pm10_delta_ug10 : ℤ
  pub flags : ℕ
