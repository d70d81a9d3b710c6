-- ===== src/Wire/Constants.antt =====
-- The constants of BinaryPacket.h: marks, packet types, flags and frame sizes.
use smart_fires_io_t.Base.{ℕ}

abbrev pub frame_m0 : ℕ
frame_m0 = 0xaa

abbrev pub frame_m1 : ℕ
frame_m1 = 0x55

abbrev pub pkt_magic : ℕ
pkt_magic = 0xa5

abbrev pub pkt_full_state : ℕ
pkt_full_state = 0x01

abbrev pub pkt_heartbeat : ℕ
pkt_heartbeat = 0x02

abbrev pub pkt_time_sync : ℕ
pkt_time_sync = 0x03

abbrev pub pkt_bundle : ℕ
pkt_bundle = 0x04

abbrev pub pkt_status : ℕ
pkt_status = 0x05

abbrev pub pkt_awaken : ℕ
pkt_awaken = 0x06

abbrev pub pkt_ack_summary : ℕ
pkt_ack_summary = 0x07

abbrev pub pkt_window_begin : ℕ
pkt_window_begin = 0x08

abbrev pub pkt_window_end : ℕ
pkt_window_end = 0x09

abbrev pub pkt_cmd_calibrate : ℕ
pkt_cmd_calibrate = 0x10

abbrev pub pkt_cmd_reset : ℕ
pkt_cmd_reset = 0x11

abbrev pub pkt_calibration_data : ℕ
pkt_calibration_data = 0x12

abbrev pub pkt_cmd_ack : ℕ
pkt_cmd_ack = 0x13

abbrev pub pkt_debug_log : ℕ
pkt_debug_log = 0x14

abbrev pub pkt_cmd_set_tx_power : ℕ
pkt_cmd_set_tx_power = 0x15

abbrev pub pkt_network_profile : ℕ
pkt_network_profile = 0x16

abbrev pub pkt_flag_retx : ℕ
pkt_flag_retx = 0x04

abbrev pub status_gps_valid : ℕ
status_gps_valid = 0x01

abbrev pub status_batt_valid : ℕ
status_batt_valid = 0x02

abbrev pub status_imu_valid : ℕ
status_imu_valid = 0x04

abbrev pub status_tx_power_static : ℕ
status_tx_power_static = 0x08

abbrev pub tx_power_mode_dynamic : ℕ
tx_power_mode_dynamic = 0x00

abbrev pub tx_power_mode_static : ℕ
tx_power_mode_static = 0x01

abbrev pub delta_flag_dt_clamped : ℕ
delta_flag_dt_clamped = 0x01

abbrev pub delta_flag_temp_clamped : ℕ
delta_flag_temp_clamped = 0x02

abbrev pub delta_flag_humid_clamped : ℕ
delta_flag_humid_clamped = 0x04

abbrev pub delta_flag_pm1_clamped : ℕ
delta_flag_pm1_clamped = 0x08

abbrev pub delta_flag_pm2_5_clamped : ℕ
delta_flag_pm2_5_clamped = 0x10

abbrev pub delta_flag_pm4_clamped : ℕ
delta_flag_pm4_clamped = 0x20

abbrev pub delta_flag_pm10_clamped : ℕ
delta_flag_pm10_clamped = 0x40

abbrev pub header_size : ℕ
header_size = 5

abbrev pub full_state_size : ℕ
full_state_size = 20

abbrev pub delta_size : ℕ
delta_size = 12

abbrev pub bundle_max_deltas : ℕ
bundle_max_deltas = 14

abbrev pub awaken_lora_size : ℕ
awaken_lora_size = 12

abbrev pub legacy_header_size : ℕ
legacy_header_size = 4

abbrev pub awaken_payload_legacy_len : ℕ
awaken_payload_legacy_len = 4

abbrev pub awaken_lora_size_legacy : ℕ
awaken_lora_size_legacy = 9

abbrev pub status_lora_size : ℕ
status_lora_size = 27

abbrev pub window_marker_lora_size : ℕ
window_marker_lora_size = 17

abbrev pub time_sync_lora_size : ℕ
time_sync_lora_size = 14

abbrev pub ack_summary_lora_size : ℕ
ack_summary_lora_size = 10

abbrev pub cmd_calibrate_lora_size : ℕ
cmd_calibrate_lora_size = 8

abbrev pub cmd_reset_lora_size : ℕ
cmd_reset_lora_size = 8

abbrev pub cmd_set_tx_power_lora_size : ℕ
cmd_set_tx_power_lora_size = 9

abbrev pub cmd_ack_lora_size : ℕ
cmd_ack_lora_size = 12

abbrev pub max_bundle_lora_size : ℕ
max_bundle_lora_size = 195

abbrev pub network_profile_uart_payload_size : ℕ
network_profile_uart_payload_size = 37
