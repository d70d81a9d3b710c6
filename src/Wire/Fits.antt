-- ===== src/Wire/Fits.antt =====
-- The values that the fields of each struct can hold.
use smart_fires_io_t.Base.{◌<◌}
use smart_fires_io_t.Base.Int.{InRange}
use smart_fires_io_t.Wire.Packet.{
  PktHeader, AwakenPayload, NetworkProfilePayload, WindowMarkerPayload, FullStatePayload,
  StatusPayload, CmdCalibratePayload, CmdResetPayload, CmdSetTxPowerPayload, CmdAckPayload,
  TimeSyncPayload, AckSummaryPayload, DeltaPayload,
}

pub record HeaderFits (p : PktHeader) : Type 0 where
  pub magic_fits : p.magic < 256
  pub pkt_type_fits : p.pkt_type < 256
  pub node_id_fits : p.node_id < 256
  pub seq_fits : p.seq < 256
  pub flags_fits : p.flags < 256

pub record AwakenFits (p : AwakenPayload) : Type 0 where
  pub uid_hash_fits : p.uid_hash < 4294967296
  pub reset_cause_fits : p.reset_cause < 256
  pub hang_zone_fits : p.hang_zone < 256

pub record NetworkProfileFits (p : NetworkProfilePayload) : Type 0 where
  pub schema_version_fits : p.schema_version < 256
  pub profile_id_fits : p.profile_id < 256
  pub spreading_factor_fits : p.spreading_factor < 256
  pub coding_rate_denominator_fits : p.coding_rate_denominator < 256
  pub bandwidth_hz_fits : p.bandwidth_hz < 4294967296
  pub num_slots_fits : p.num_slots < 256
  pub slot_width_ms_fits : p.slot_width_ms < 4294967296
  pub guard_ms_fits : p.guard_ms < 65536
  pub max_bundle_deltas_fits : p.max_bundle_deltas < 256
  pub continuous_sample_period_ms_fits : p.continuous_sample_period_ms < 4294967296
  pub timed_sample_period_ms_fits : p.timed_sample_period_ms < 4294967296
  pub status_interval_ms_fits : p.status_interval_ms < 4294967296
  pub fingerprint_fits : p.fingerprint < 4294967296

pub record WindowMarkerFits (p : WindowMarkerPayload) : Type 0 where
  pub session_time_ms_fits : p.session_time_ms < 4294967296
  pub planned_sleep_ms_fits : p.planned_sleep_ms < 4294967296
  pub window_id_fits : p.window_id < 65536
  pub sample_count_fits : p.sample_count < 256

pub record FullStateFits (p : FullStatePayload) : Type 0 where
  pub session_time_fits : p.session_time < 4294967296
  pub sensor_flags_fits : p.sensor_flags < 65536
  pub wind_cms_fits : p.wind_cms < 65536
  pub temp_cdegc_fits : InRange 32768 p.temp_cdegc
  pub humidity_cpct_fits : p.humidity_cpct < 65536
  pub pm1_0_ug10_fits : p.pm1_0_ug10 < 65536
  pub pm2_5_ug10_fits : p.pm2_5_ug10 < 65536
  pub pm4_0_ug10_fits : p.pm4_0_ug10 < 65536
  pub pm10_ug10_fits : p.pm10_ug10 < 65536

pub record StatusFits (p : StatusPayload) : Type 0 where
  pub lat_e7_fits : InRange 2147483648 p.lat_e7
  pub lon_e7_fits : InRange 2147483648 p.lon_e7
  pub battery_mv_fits : p.battery_mv < 65536
  pub battery_pct_fits : p.battery_pct < 256
  pub flags_fits : p.flags < 256
  pub heading_deg_x10_fits : p.heading_deg_x10 < 65536
  pub heading_accuracy_fits : p.heading_accuracy < 65536
  pub retx_total_fits : p.retx_total < 65536
  pub fail_total_fits : p.fail_total < 65536
  pub tx_power_dbm_fits : InRange 128 p.tx_power_dbm

pub record CmdCalibrateFits (p : CmdCalibratePayload) : Type 0 where
  pub node_id_fits : p.node_id < 256
  pub duration_s_fits : p.duration_s < 256

pub record CmdResetFits (p : CmdResetPayload) : Type 0 where
  pub node_id_fits : p.node_id < 256
  pub reset_type_fits : p.reset_type < 256

pub record CmdSetTxPowerFits (p : CmdSetTxPowerPayload) : Type 0 where
  pub node_id_fits : p.node_id < 256
  pub tx_power_dbm_fits : InRange 128 p.tx_power_dbm
  pub mode_fits : p.mode < 256

pub record CmdAckFits (p : CmdAckPayload) : Type 0 where
  pub cmd_type_fits : p.cmd_type < 256
  pub uid_hash_fits : p.uid_hash < 4294967296
  pub status_fits : p.status < 256

pub record TimeSyncFits (p : TimeSyncPayload) : Type 0 where
  pub session_id_fits : p.session_id < 4294967296
  pub session_time_ms_fits : p.session_time_ms < 4294967296

pub record AckSummaryFits (p : AckSummaryPayload) : Type 0 where
  pub node_id_fits : p.node_id < 256
  pub ack_base_seq_fits : p.ack_base_seq < 256
  pub ack_mask_fits : p.ack_mask < 65536

pub record DeltaFits (p : DeltaPayload) : Type 0 where
  pub dt_ticks_250ms_fits : p.dt_ticks_250ms < 256
  pub wind_cms_fits : p.wind_cms < 65536
  pub temp_delta_deci_c_fits : InRange 128 p.temp_delta_deci_c
  pub humidity_delta_0p2pct_fits : InRange 128 p.humidity_delta_0p2pct
  pub pm1_0_delta_ug_fits : InRange 128 p.pm1_0_delta_ug
  pub pm2_5_delta_ug10_fits : InRange 32768 p.pm2_5_delta_ug10
  pub pm4_0_delta_ug_fits : InRange 128 p.pm4_0_delta_ug
  pub pm10_delta_ug10_fits : InRange 32768 p.pm10_delta_ug10
  pub flags_fits : p.flags < 256
