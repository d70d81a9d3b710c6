-- ===== src/Wire/Layout.antt =====
-- The byte layout of the packed structs on the little-endian target. `bytes` is what `memcpy` from a
-- struct writes before the bytes that follow it, and `of` what `memcpy` into a struct reads from the
-- front of a buffer.
use smart_fires_io_t.Base.{ℕ, ◌+◌, ◌*◌, ◌/◌, ◌%◌, List, ◌∷◌, get_or}
use smart_fires_io_t.Base.Int.{from_bits, to_bits}
use smart_fires_io_t.Wire.Packet.{
  PktHeader, AwakenPayload, NetworkProfilePayload, WindowMarkerPayload, FullStatePayload,
  StatusPayload, CmdCalibratePayload, CmdResetPayload, CmdSetTxPowerPayload, CmdAckPayload,
  TimeSyncPayload, AckSummaryPayload, DeltaPayload,
}

abbrev pub le16 : ℕ → List ℕ → List ℕ
le16 n rest = n % 256 ∷ n / 256 % 256 ∷ rest

abbrev pub le32 : ℕ → List ℕ → List ℕ
le32 n rest = n % 256 ∷ n / 256 % 256 ∷ n / 65536 % 256 ∷ n / 16777216 % 256 ∷ rest

-- The byte at an offset, and the words that start there.
abbrev pub at8 : List ℕ → ℕ → ℕ
at8 raw i = get_or raw i 0

abbrev pub at16 : List ℕ → ℕ → ℕ
at16 raw i = get_or raw i 0 + 256 * get_or raw (i + 1) 0

abbrev pub at32 : List ℕ → ℕ → ℕ
at32 raw i =
    get_or raw i 0
    + 256 * get_or raw (i + 1) 0
    + 65536 * get_or raw (i + 2) 0
    + 16777216 * get_or raw (i + 3) 0

unfoldable pub header_bytes : PktHeader → List ℕ → List ℕ
header_bytes p rest = p.magic ∷ p.pkt_type ∷ p.node_id ∷ p.seq ∷ p.flags ∷ rest

unfoldable pub header_of : List ℕ → PktHeader
header_of raw = record {
  magic = at8 raw 0;
  pkt_type = at8 raw 1;
  node_id = at8 raw 2;
  seq = at8 raw 3;
  flags = at8 raw 4;
}

unfoldable pub awaken_bytes : AwakenPayload → List ℕ → List ℕ
awaken_bytes p rest = le32 p.uid_hash (p.reset_cause ∷ p.hang_zone ∷ rest)

unfoldable pub awaken_of : List ℕ → AwakenPayload
awaken_of raw = record { uid_hash = at32 raw 0; reset_cause = at8 raw 4; hang_zone = at8 raw 5 }

unfoldable pub network_profile_bytes : NetworkProfilePayload → List ℕ → List ℕ
network_profile_bytes p rest =
    p.schema_version
    ∷ p.profile_id
    ∷ p.spreading_factor
    ∷ p.coding_rate_denominator
    ∷ le32 p.bandwidth_hz (
        p.num_slots
        ∷ le32 p.slot_width_ms (
            le16 p.guard_ms (
              p.max_bundle_deltas
              ∷ le32 p.continuous_sample_period_ms (
                  le32 p.timed_sample_period_ms
                    (le32 p.status_interval_ms (le32 p.fingerprint rest))))))

unfoldable pub network_profile_of : List ℕ → NetworkProfilePayload
network_profile_of raw = record {
  schema_version = at8 raw 0;
  profile_id = at8 raw 1;
  spreading_factor = at8 raw 2;
  coding_rate_denominator = at8 raw 3;
  bandwidth_hz = at32 raw 4;
  num_slots = at8 raw 8;
  slot_width_ms = at32 raw 9;
  guard_ms = at16 raw 13;
  max_bundle_deltas = at8 raw 15;
  continuous_sample_period_ms = at32 raw 16;
  timed_sample_period_ms = at32 raw 20;
  status_interval_ms = at32 raw 24;
  fingerprint = at32 raw 28;
}

unfoldable pub window_marker_bytes : WindowMarkerPayload → List ℕ → List ℕ
window_marker_bytes p rest =
    le32 p.session_time_ms (le32 p.planned_sleep_ms (le16 p.window_id (p.sample_count ∷ rest)))

unfoldable pub window_marker_of : List ℕ → WindowMarkerPayload
window_marker_of raw = record {
  session_time_ms = at32 raw 0;
  planned_sleep_ms = at32 raw 4;
  window_id = at16 raw 8;
  sample_count = at8 raw 10;
}

unfoldable pub full_state_bytes : FullStatePayload → List ℕ → List ℕ
full_state_bytes p rest = le32 p.session_time (
    le16 p.sensor_flags (
      le16 p.wind_cms (
        le16 (to_bits 32768 p.temp_cdegc) (
          le16 p.humidity_cpct
            (le16 p.pm1_0_ug10 (le16 p.pm2_5_ug10 (le16 p.pm4_0_ug10 (le16 p.pm10_ug10 rest))))))))

unfoldable pub full_state_of : List ℕ → FullStatePayload
full_state_of raw = record {
  session_time = at32 raw 0;
  sensor_flags = at16 raw 4;
  wind_cms = at16 raw 6;
  temp_cdegc = from_bits 32768 (at16 raw 8);
  humidity_cpct = at16 raw 10;
  pm1_0_ug10 = at16 raw 12;
  pm2_5_ug10 = at16 raw 14;
  pm4_0_ug10 = at16 raw 16;
  pm10_ug10 = at16 raw 18;
}

unfoldable pub status_bytes : StatusPayload → List ℕ → List ℕ
status_bytes p rest = le32 (to_bits 2147483648 p.lat_e7) (
    le32 (to_bits 2147483648 p.lon_e7) (
      le16 p.battery_mv (
        p.battery_pct
        ∷ p.flags
        ∷ le16 p.heading_deg_x10 (
            le16 p.heading_accuracy
              (le16 p.retx_total (le16 p.fail_total (to_bits 128 p.tx_power_dbm ∷ rest)))))))

unfoldable pub status_of : List ℕ → StatusPayload
status_of raw = record {
  lat_e7 = from_bits 2147483648 (at32 raw 0);
  lon_e7 = from_bits 2147483648 (at32 raw 4);
  battery_mv = at16 raw 8;
  battery_pct = at8 raw 10;
  flags = at8 raw 11;
  heading_deg_x10 = at16 raw 12;
  heading_accuracy = at16 raw 14;
  retx_total = at16 raw 16;
  fail_total = at16 raw 18;
  tx_power_dbm = from_bits 128 (at8 raw 20);
}

unfoldable pub cmd_calibrate_bytes : CmdCalibratePayload → List ℕ → List ℕ
cmd_calibrate_bytes p rest = p.node_id ∷ p.duration_s ∷ rest

unfoldable pub cmd_calibrate_of : List ℕ → CmdCalibratePayload
cmd_calibrate_of raw = record { node_id = at8 raw 0; duration_s = at8 raw 1 }

unfoldable pub cmd_reset_bytes : CmdResetPayload → List ℕ → List ℕ
cmd_reset_bytes p rest = p.node_id ∷ p.reset_type ∷ rest

unfoldable pub cmd_reset_of : List ℕ → CmdResetPayload
cmd_reset_of raw = record { node_id = at8 raw 0; reset_type = at8 raw 1 }

unfoldable pub cmd_set_tx_power_bytes : CmdSetTxPowerPayload → List ℕ → List ℕ
cmd_set_tx_power_bytes p rest = p.node_id ∷ to_bits 128 p.tx_power_dbm ∷ p.mode ∷ rest

unfoldable pub cmd_set_tx_power_of : List ℕ → CmdSetTxPowerPayload
cmd_set_tx_power_of raw = record {
  node_id = at8 raw 0;
  tx_power_dbm = from_bits 128 (at8 raw 1);
  mode = at8 raw 2;
}

unfoldable pub cmd_ack_bytes : CmdAckPayload → List ℕ → List ℕ
cmd_ack_bytes p rest = p.cmd_type ∷ le32 p.uid_hash (p.status ∷ rest)

unfoldable pub cmd_ack_of : List ℕ → CmdAckPayload
cmd_ack_of raw = record { cmd_type = at8 raw 0; uid_hash = at32 raw 1; status = at8 raw 5 }

unfoldable pub time_sync_bytes : TimeSyncPayload → List ℕ → List ℕ
time_sync_bytes p rest = le32 p.session_id (le32 p.session_time_ms rest)

unfoldable pub time_sync_of : List ℕ → TimeSyncPayload
time_sync_of raw = record { session_id = at32 raw 0; session_time_ms = at32 raw 4 }

unfoldable pub ack_summary_bytes : AckSummaryPayload → List ℕ → List ℕ
ack_summary_bytes p rest = p.node_id ∷ p.ack_base_seq ∷ le16 p.ack_mask rest

unfoldable pub ack_summary_of : List ℕ → AckSummaryPayload
ack_summary_of raw = record { node_id = at8 raw 0; ack_base_seq = at8 raw 1; ack_mask = at16 raw 2 }

unfoldable pub delta_bytes : DeltaPayload → List ℕ → List ℕ
delta_bytes p rest =
    p.dt_ticks_250ms
    ∷ le16 p.wind_cms (
        to_bits 128 p.temp_delta_deci_c
        ∷ to_bits 128 p.humidity_delta_0p2pct
        ∷ to_bits 128 p.pm1_0_delta_ug
        ∷ le16 (to_bits 32768 p.pm2_5_delta_ug10) (
            to_bits 128 p.pm4_0_delta_ug ∷ le16 (to_bits 32768 p.pm10_delta_ug10) (p.flags ∷ rest)))

unfoldable pub delta_of : List ℕ → DeltaPayload
delta_of raw = record {
  dt_ticks_250ms = at8 raw 0;
  wind_cms = at16 raw 1;
  temp_delta_deci_c = from_bits 128 (at8 raw 3);
  humidity_delta_0p2pct = from_bits 128 (at8 raw 4);
  pm1_0_delta_ug = from_bits 128 (at8 raw 5);
  pm2_5_delta_ug10 = from_bits 32768 (at16 raw 6);
  pm4_0_delta_ug = from_bits 128 (at8 raw 8);
  pm10_delta_ug10 = from_bits 32768 (at16 raw 9);
  flags = at8 raw 11;
}
