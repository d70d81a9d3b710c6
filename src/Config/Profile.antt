-- ===== src/Config/Profile.antt =====
-- NetworkProfiles.h: the record of a network profile, what is derived from it, the validation and the
-- profiles that a build can select. The enumerator `id` is its underlying number.
pub mod Builtin
pub mod Slots
mod Checks
use Prim.Native.Nat.{bit_or, bit_xor}
use smart_fires_io_t.Base.{
  ℕ, zero, suc, ◌+◌, ◌-◌, ◌*◌, ◌/◌, ◌%◌, ◌^◌, Bool, true, false, not, ◌&&◌, ◌||◌, ltb, leb, ◌==◌,
  if◌then◌else◌,
}
use smart_fires_io_t.Base.Int.{ℤ, pos, negsuc, ltb_ℤ, to_bits}
use smart_fires_io_t.Base.Word.{u8, u16, u32, sub_u32}
use smart_fires_io_t.Config.Airtime.{Modem, ceil_div, application_milliseconds}

pub record NetworkProfile : Type 0 where
  pub id : ℕ
  pub spreading_factor : ℕ
  pub bandwidth_hz : ℕ
  pub coding_rate_denominator : ℕ
  pub preamble_symbols : ℕ
  pub explicit_header : Bool
  pub payload_crc : Bool
  pub low_data_rate_optimization : Bool
  pub snr_demod_floor_db_x10 : ℤ
  pub total_slots : ℕ
  pub slot_width_ms : ℕ
  pub guard_ms : ℕ
  pub sync_stale_ms : ℕ
  pub rx_wake_ahead_ms : ℕ
  pub max_bundle_deltas : ℕ
  pub max_operational_application_bytes : ℕ
  pub max_bundle_airtime_ms : ℕ
  pub tx_completion_margin_ms : ℕ
  pub continuous_sample_period_ms : ℕ
  pub timed_sample_period_ms : ℕ
  pub status_interval_ms : ℕ
  pub use_app_ack_summary : Bool
  pub reliability_max_attempts : ℕ
  pub retry_wait_ms : ℕ
  pub reliability_max_age_ms : ℕ
  pub awaken_interval_ms : ℕ
  pub periodic_time_sync_ms : ℕ
  pub command_ack_timeout_ms : ℕ
  pub max_tx_drain_before_standby_ms : ℕ
  pub timed_active_sample_ms : ℕ
  pub timed_cycle_period_ms : ℕ

abbrev pub wire_bundle_max_deltas : ℕ
wire_bundle_max_deltas = 14

abbrev pub bundle_fixed_bytes : ℕ
bundle_fixed_bytes = 27

abbrev pub bundle_bytes_per_delta : ℕ
bundle_bytes_per_delta = 12

unfoldable pub frame_period_ms : NetworkProfile → ℕ
frame_period_ms p = u32 (p.total_slots * p.slot_width_ms)

unfoldable pub samples_per_bundle : NetworkProfile → ℕ
samples_per_bundle p = u32 (p.max_bundle_deltas + 1)

unfoldable pub sx127x_bandwidth_bits : ℕ → ℕ
sx127x_bandwidth_bits hz = if hz == 125000 then 0x70 else if hz == 250000 then 0x80 else 0xff

unfoldable pub sx127x_modem_config1 : NetworkProfile → ℕ
unfolding sx127x_bandwidth_bits
sx127x_modem_config1 p = u8 (
    bit_or
      (bit_or (sx127x_bandwidth_bits p.bandwidth_hz)
        (u32 (sub_u32 p.coding_rate_denominator 4 * 2)))
      (if p.explicit_header then 0 else 1))

unfoldable pub bundle_application_bytes : ℕ → ℕ
bundle_application_bytes deltas = u16 (bundle_fixed_bytes + bundle_bytes_per_delta * deltas)

unfoldable pub modem : NetworkProfile → Modem
modem p = record {
  spreading_factor = p.spreading_factor;
  bandwidth_hz = p.bandwidth_hz;
  coding_rate_denominator = p.coding_rate_denominator;
  preamble_symbols = p.preamble_symbols;
  explicit_header = p.explicit_header;
  payload_crc = p.payload_crc;
  low_data_rate_optimize = p.low_data_rate_optimization;
}

unfoldable pub application_airtime_ms : NetworkProfile → ℕ → ℕ
application_airtime_ms p application_bytes = application_milliseconds application_bytes (modem p)

unfoldable pub max_bundle_airtime_ms : NetworkProfile → ℕ
max_bundle_airtime_ms p = application_airtime_ms p p.max_operational_application_bytes

unfoldable pub requires_low_data_rate_optimization : NetworkProfile → Bool
requires_low_data_rate_optimization p =
    ltb 16000 (ceil_div (u32 (2 ^ p.spreading_factor * 1000000)) p.bandwidth_hz)

unfoldable pub offered_load_permille : NetworkProfile → ℕ
offered_load_permille p = u32 (
    ceil_div (u32 (frame_period_ms p * 1000))
      (u32 (samples_per_bundle p * p.continuous_sample_period_ms))
    + ceil_div (u32 (frame_period_ms p * 1000)) p.status_interval_ms)

-- FNV-1a over the low bytes of a value, by the bytes that remain.
unfoldable pub fingerprint_mix : ℕ → ℕ → ℕ → ℕ
fingerprint_mix zero hash value = hash
fingerprint_mix (suc remaining) hash value =
    fingerprint_mix remaining (u32 (bit_xor hash (u8 value) * 16777619)) (value / 256)

abbrev pub bit_of : Bool → ℕ
bit_of b = if b then 1 else 0

abbrev pub mix4 : ℕ → ℕ → ℕ
mix4 hash value = fingerprint_mix 4 hash value

unfoldable pub fingerprint_radio_fields : NetworkProfile → ℕ → ℕ
fingerprint_radio_fields p hash =
    let h1 : ℕ = mix4 hash (u8 p.id) in
    let h2 : ℕ = mix4 h1 p.spreading_factor in
    let h3 : ℕ = mix4 h2 p.bandwidth_hz in
    let h4 : ℕ = mix4 h3 p.coding_rate_denominator in
    let h5 : ℕ = mix4 h4 p.preamble_symbols in
    let h6 : ℕ = mix4 h5 (bit_of p.explicit_header) in
    let h7 : ℕ = mix4 h6 (bit_of p.payload_crc) in
    let h8 : ℕ = mix4 h7 (bit_of p.low_data_rate_optimization) in
    let h9 : ℕ = mix4 h8 (to_bits 32768 p.snr_demod_floor_db_x10) in h9

unfoldable pub fingerprint_geometry_fields : NetworkProfile → ℕ → ℕ
fingerprint_geometry_fields p hash =
    let h1 : ℕ = mix4 hash p.total_slots in
    let h2 : ℕ = mix4 h1 p.slot_width_ms in
    let h3 : ℕ = mix4 h2 p.guard_ms in
    let h4 : ℕ = mix4 h3 p.sync_stale_ms in let h5 : ℕ = mix4 h4 p.rx_wake_ahead_ms in h5

unfoldable pub fingerprint_traffic_fields : NetworkProfile → ℕ → ℕ
fingerprint_traffic_fields p hash =
    let h1 : ℕ = mix4 hash p.max_bundle_deltas in
    let h2 : ℕ = mix4 h1 p.max_operational_application_bytes in
    let h3 : ℕ = mix4 h2 p.max_bundle_airtime_ms in
    let h4 : ℕ = mix4 h3 p.tx_completion_margin_ms in
    let h5 : ℕ = mix4 h4 p.continuous_sample_period_ms in
    let h6 : ℕ = mix4 h5 p.timed_sample_period_ms in let h7 : ℕ = mix4 h6 p.status_interval_ms in h7

unfoldable pub fingerprint_reliability_fields : NetworkProfile → ℕ → ℕ
fingerprint_reliability_fields p hash =
    let h1 : ℕ = mix4 hash (bit_of p.use_app_ack_summary) in
    let h2 : ℕ = mix4 h1 p.reliability_max_attempts in
    let h3 : ℕ = mix4 h2 p.retry_wait_ms in
    let h4 : ℕ = mix4 h3 p.reliability_max_age_ms in
    let h5 : ℕ = mix4 h4 p.awaken_interval_ms in
    let h6 : ℕ = mix4 h5 p.periodic_time_sync_ms in
    let h7 : ℕ = mix4 h6 p.command_ack_timeout_ms in h7

unfoldable pub fingerprint_duty_fields : NetworkProfile → ℕ → ℕ
fingerprint_duty_fields p hash =
    let h1 : ℕ = mix4 hash p.max_tx_drain_before_standby_ms in
    let h2 : ℕ = mix4 h1 p.timed_active_sample_ms in
    let h3 : ℕ = mix4 h2 p.timed_cycle_period_ms in h3

unfoldable pub fingerprint : NetworkProfile → ℕ
fingerprint p = fingerprint_duty_fields p (
    fingerprint_reliability_fields p (
      fingerprint_traffic_fields p
        (fingerprint_geometry_fields p (fingerprint_radio_fields p 2166136261))))

-- The conjuncts in the order of the source, in two parts.
unfoldable pub is_valid_radio : NetworkProfile → Bool
is_valid_radio p =
    p.id == p.spreading_factor
    && (p.spreading_factor == 7
        || p.spreading_factor == 9
        || p.spreading_factor == 10
        || p.spreading_factor == 12)
    && p.bandwidth_hz == (if p.spreading_factor == 12 then 250000 else 125000)
    && not (sx127x_bandwidth_bits p.bandwidth_hz == 0xff)
    && p.coding_rate_denominator == 5
    && p.preamble_symbols == 8
    && p.explicit_header
    && p.payload_crc
    && (if p.low_data_rate_optimization
        then requires_low_data_rate_optimization p
        else not (requires_low_data_rate_optimization p))
    && ltb_ℤ p.snr_demod_floor_db_x10 (pos 0)

unfoldable pub is_valid_timing : NetworkProfile → Bool
is_valid_timing p =
    (p.total_slots == 3 || p.total_slots == 5)
    && ltb (u32 (p.guard_ms * 2)) p.slot_width_ms
    && leb p.max_bundle_deltas wire_bundle_max_deltas
    && p.max_operational_application_bytes == bundle_application_bytes p.max_bundle_deltas
    && p.max_bundle_airtime_ms == max_bundle_airtime_ms p
    && ltb (u32 (max_bundle_airtime_ms p + p.tx_completion_margin_ms + 2 * p.guard_ms))
        p.slot_width_ms
    && ltb 0 p.continuous_sample_period_ms
    && ltb 0 p.timed_sample_period_ms
    && ltb 0 p.status_interval_ms
    && leb (offered_load_permille p) 1800
    && p.use_app_ack_summary
    && leb 2 p.reliability_max_attempts
    && leb (frame_period_ms p) p.retry_wait_ms
    && leb (u32 (sub_u32 p.reliability_max_attempts 1 * p.retry_wait_ms)) p.reliability_max_age_ms
    && leb (frame_period_ms p) p.awaken_interval_ms
    && leb (frame_period_ms p) p.periodic_time_sync_ms
    && ltb p.timed_cycle_period_ms p.command_ack_timeout_ms
    && leb (u32 (frame_period_ms p + max_bundle_airtime_ms p + p.tx_completion_margin_ms))
        p.max_tx_drain_before_standby_ms
    && p.timed_active_sample_ms % u32 (samples_per_bundle p * p.timed_sample_period_ms) == 0
    && ltb p.timed_active_sample_ms p.timed_cycle_period_ms

unfoldable pub is_valid : NetworkProfile → Bool
is_valid p = is_valid_radio p && is_valid_timing p

-- `NetworkConfig::txBudgetMs`.
unfoldable pub tx_budget_ms : NetworkProfile → ℕ → ℕ
tx_budget_ms p application_bytes =
    u16 (application_airtime_ms p application_bytes + p.tx_completion_margin_ms)
