-- ===== src/Config/Profile/Builtin.antt =====
-- The named profiles of NetworkProfiles.h and their selection.
use smart_fires_io_t.Base.{ℕ, true, false, ◌==◌, if◌then◌else◌}
use smart_fires_io_t.Base.Int.{negsuc}
use smart_fires_io_t.Config.Profile.{NetworkProfile}

abbrev pub sf7 : NetworkProfile
sf7 = record {
  id = 7;
  spreading_factor = 7;
  bandwidth_hz = 125000;
  coding_rate_denominator = 5;
  preamble_symbols = 8;
  explicit_header = true;
  payload_crc = true;
  low_data_rate_optimization = false;
  snr_demod_floor_db_x10 = negsuc 74;
  total_slots = 5;
  slot_width_ms = 900;
  guard_ms = 20;
  sync_stale_ms = 1320000;
  rx_wake_ahead_ms = 150;
  max_bundle_deltas = 14;
  max_operational_application_bytes = 195;
  max_bundle_airtime_ms = 318;
  tx_completion_margin_ms = 22;
  continuous_sample_period_ms = 750;
  timed_sample_period_ms = 1000;
  status_interval_ms = 15000;
  use_app_ack_summary = true;
  reliability_max_attempts = 3;
  retry_wait_ms = 9000;
  reliability_max_age_ms = 30000;
  awaken_interval_ms = 5000;
  periodic_time_sync_ms = 50000;
  command_ack_timeout_ms = 120000;
  max_tx_drain_before_standby_ms = 5000;
  timed_active_sample_ms = 30000;
  timed_cycle_period_ms = 75000;
}

abbrev pub sf9 : NetworkProfile
sf9 = record {
  id = 9;
  spreading_factor = 9;
  bandwidth_hz = 125000;
  coding_rate_denominator = 5;
  preamble_symbols = 8;
  explicit_header = true;
  payload_crc = true;
  low_data_rate_optimization = false;
  snr_demod_floor_db_x10 = negsuc 124;
  total_slots = 5;
  slot_width_ms = 1300;
  guard_ms = 30;
  sync_stale_ms = 1320000;
  rx_wake_ahead_ms = 200;
  max_bundle_deltas = 14;
  max_operational_application_bytes = 195;
  max_bundle_airtime_ms = 1005;
  tx_completion_margin_ms = 50;
  continuous_sample_period_ms = 750;
  timed_sample_period_ms = 1000;
  status_interval_ms = 30000;
  use_app_ack_summary = true;
  reliability_max_attempts = 3;
  retry_wait_ms = 13000;
  reliability_max_age_ms = 40000;
  awaken_interval_ms = 7000;
  periodic_time_sync_ms = 65000;
  command_ack_timeout_ms = 120000;
  max_tx_drain_before_standby_ms = 8000;
  timed_active_sample_ms = 30000;
  timed_cycle_period_ms = 80000;
}

abbrev pub sf10 : NetworkProfile
sf10 = record {
  id = 10;
  spreading_factor = 10;
  bandwidth_hz = 125000;
  coding_rate_denominator = 5;
  preamble_symbols = 8;
  explicit_header = true;
  payload_crc = true;
  low_data_rate_optimization = false;
  snr_demod_floor_db_x10 = negsuc 149;
  total_slots = 5;
  slot_width_ms = 2200;
  guard_ms = 50;
  sync_stale_ms = 1320000;
  rx_wake_ahead_ms = 250;
  max_bundle_deltas = 14;
  max_operational_application_bytes = 195;
  max_bundle_airtime_ms = 1805;
  tx_completion_margin_ms = 50;
  continuous_sample_period_ms = 1000;
  timed_sample_period_ms = 1000;
  status_interval_ms = 120000;
  use_app_ack_summary = true;
  reliability_max_attempts = 3;
  retry_wait_ms = 22000;
  reliability_max_age_ms = 70000;
  awaken_interval_ms = 12000;
  periodic_time_sync_ms = 110000;
  command_ack_timeout_ms = 120000;
  max_tx_drain_before_standby_ms = 15000;
  timed_active_sample_ms = 30000;
  timed_cycle_period_ms = 90000;
}

abbrev pub sf12 : NetworkProfile
sf12 = record {
  id = 12;
  spreading_factor = 12;
  bandwidth_hz = 250000;
  coding_rate_denominator = 5;
  preamble_symbols = 8;
  explicit_header = true;
  payload_crc = true;
  low_data_rate_optimization = true;
  snr_demod_floor_db_x10 = negsuc 199;
  total_slots = 5;
  slot_width_ms = 5000;
  guard_ms = 100;
  sync_stale_ms = 1320000;
  rx_wake_ahead_ms = 300;
  max_bundle_deltas = 7;
  max_operational_application_bytes = 111;
  max_bundle_airtime_ms = 2216;
  tx_completion_margin_ms = 100;
  continuous_sample_period_ms = 4000;
  timed_sample_period_ms = 4000;
  status_interval_ms = 300000;
  use_app_ack_summary = true;
  reliability_max_attempts = 3;
  retry_wait_ms = 50000;
  reliability_max_age_ms = 150000;
  awaken_interval_ms = 27000;
  periodic_time_sync_ms = 125000;
  command_ack_timeout_ms = 180000;
  max_tx_drain_before_standby_ms = 30000;
  timed_active_sample_ms = 64000;
  timed_cycle_period_ms = 150000;
}

abbrev pub sf12_range_test : NetworkProfile
sf12_range_test = record {
  id = 12;
  spreading_factor = 12;
  bandwidth_hz = 250000;
  coding_rate_denominator = 5;
  preamble_symbols = 8;
  explicit_header = true;
  payload_crc = true;
  low_data_rate_optimization = true;
  snr_demod_floor_db_x10 = negsuc 199;
  total_slots = 3;
  slot_width_ms = 5000;
  guard_ms = 100;
  sync_stale_ms = 1320000;
  rx_wake_ahead_ms = 300;
  max_bundle_deltas = 7;
  max_operational_application_bytes = 111;
  max_bundle_airtime_ms = 2216;
  tx_completion_margin_ms = 100;
  continuous_sample_period_ms = 60000;
  timed_sample_period_ms = 4000;
  status_interval_ms = 15000;
  use_app_ack_summary = true;
  reliability_max_attempts = 3;
  retry_wait_ms = 50000;
  reliability_max_age_ms = 150000;
  awaken_interval_ms = 27000;
  periodic_time_sync_ms = 125000;
  command_ack_timeout_ms = 180000;
  max_tx_drain_before_standby_ms = 30000;
  timed_active_sample_ms = 64000;
  timed_cycle_period_ms = 150000;
}

unfoldable pub profile_for_selector : ℕ → NetworkProfile
profile_for_selector selector =
    if selector == 7
    then sf7
    else if selector == 9
    then sf9
    else if selector == 10
    then sf10
    else if selector == 120
    then sf12_range_test
    else sf12
