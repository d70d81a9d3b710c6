-- ===== src/Config/Profile/Slots.antt =====
-- `isValid` of NetworkProfiles.h against the schedule: the frames that a profile admits and the width of
-- its slots, and the profiles that a selector can name.
use smart_fires_io_t.Base.{
  ℕ, ◌+◌, ◌*◌, ◌^◌, ◌≤◌, ◌<◌, ◌≡◌, ◌⊎◌, inl, inr, Bool-cases, true, &&-both, ◌==◌, if◌then◌else◌,
  arith, refl, sym, ap, ◌∙◌,
}
use smart_fires_io_t.Base.Word.{u16, u32}
use smart_fires_io_t.Config.Airtime.{
  ceil_div, symbol_microseconds, payload_numerator, payload_denominator, coded_blocks,
  payload_symbols, total_quarter_symbols, microseconds, milliseconds, application_milliseconds,
}
use smart_fires_io_t.Config.Airtime.Bounds.{IsLoRa, milliseconds_mono, milliseconds-le}
use smart_fires_io_t.Config.Profile.{
  NetworkProfile, modem, bundle_application_bytes, application_airtime_ms, max_bundle_airtime_ms,
  is_valid_radio, is_valid_timing, is_valid, fingerprint, fingerprint_radio_fields,
  fingerprint_geometry_fields, fingerprint_traffic_fields, fingerprint_reliability_fields,
  fingerprint_duty_fields, fingerprint_mix, sx127x_bandwidth_bits,
  requires_low_data_rate_optimization, frame_period_ms, samples_per_bundle, offered_load_permille,
}
use smart_fires_io_t.Config.Profile.Builtin.{
  sf7, sf9, sf10, sf12, sf12_range_test, profile_for_selector,
}

-- What the radio part of the validation says of the modem.
valid-IsLoRa : (p : NetworkProfile) → is_valid_radio p ≡ true → IsLoRa (modem p)
unfolding is_valid_radio modem
valid-IsLoRa p h = ground arith

-- What the timing part says of the slot.
abbrev Slot : NetworkProfile → Type 0
Slot p =
    ((p.total_slots ≡ 3) ⊎ (p.total_slots ≡ 5))
    × (u32 (p.guard_ms * 2) < p.slot_width_ms)
    × (p.max_bundle_deltas ≤ 14)
    × (p.max_operational_application_bytes ≡ bundle_application_bytes p.max_bundle_deltas)
    × (u32 (max_bundle_airtime_ms p + p.tx_completion_margin_ms + 2 * p.guard_ms) < p.slot_width_ms)

valid-Slot : (p : NetworkProfile) → is_valid_timing p ≡ true → Slot p
unfolding is_valid_timing
valid-Slot p h = ground arith

valid_parts : (p : NetworkProfile) → is_valid p ≡ true → IsLoRa (modem p) × Slot p
unfolding is_valid
valid_parts p h =
    let both = &&-both {a = is_valid_radio p} {b = is_valid_timing p} h in
    (valid-IsLoRa p both.0, valid-Slot p both.1)

admitted_airtime :
    (p : NetworkProfile) (bytes : ℕ)
    → IsLoRa (modem p)
    → p.max_bundle_deltas ≤ 14
    → p.max_operational_application_bytes ≡ bundle_application_bytes p.max_bundle_deltas
    → bytes ≤ p.max_operational_application_bytes
    → (application_airtime_ms p bytes ≤ max_bundle_airtime_ms p)
      × (max_bundle_airtime_ms p ≤ 135021)
unfolding application_airtime_ms application_milliseconds max_bundle_airtime_ms
    bundle_application_bytes
admitted_airtime p bytes v few size le =
    let top = p.max_operational_application_bytes in
    let most : top ≤ 195 = omega arith in
    let a : u16 (bytes + 4) ≡ bytes + 4 = omega arith in
    let b : u16 (top + 4) ≡ top + 4 = omega arith in
    rw (a, b)
      (
        milliseconds_mono (bytes + 4) (top + 4) (modem p) v (omega arith) (omega arith),
        milliseconds-le (top + 4) (modem p) v (omega arith),
      )

-- In a valid profile every frame of the admitted length has an airtime that, with the completion
-- margin and both guard bands, is shorter than the slot. (The margin is a 16-bit field; a guard below
-- 2^30 ms keeps the validation's own sum from wrapping.)
pub admitted_frame_fits :
    (p : NetworkProfile) (bytes : ℕ)
    → is_valid p ≡ true
    → p.tx_completion_margin_ms < 65536
    → p.guard_ms < 2 ^ 30
    → bytes ≤ p.max_operational_application_bytes
    → application_airtime_ms p bytes + p.tx_completion_margin_ms + 2 * p.guard_ms < p.slot_width_ms
admitted_frame_fits p bytes h small guard le =
    let (v, slot) = valid_parts p h in
    omega (arith, admitted_airtime p bytes v slot.2 slot.3 le, slot.4)

-- The selectors reach five profiles.
selected {ℓ} :
    (P : NetworkProfile → Type ℓ)
    → P sf7
    → P sf9
    → P sf10
    → P sf12
    → P sf12_range_test
    → (selector : ℕ) → P (profile_for_selector selector)
unfolding profile_for_selector
selected P a b c d e s = elim (Bool-cases (s == 7)) [
  | inl p ↦ rw p a
  | inr p ↦ elim (Bool-cases (s == 9)) [
    | inl q ↦ rw (p, q) b
    | inr q ↦ elim (Bool-cases (s == 10)) [
      | inl r ↦ rw (p, q, r) c
      | inr r ↦ elim (Bool-cases (s == 120)) [
        | inl t ↦ rw (p, q, r, t) e
        | inr t ↦ rw (p, q, r, t) d
      ]
    ]
  ]
]

-- Whatever the selector, the selected profile is valid.
pub selected_is_valid : (selector : ℕ) → is_valid (profile_for_selector selector) ≡ true
unfolding is_valid is_valid_radio is_valid_timing fingerprint fingerprint_radio_fields
    fingerprint_geometry_fields fingerprint_traffic_fields fingerprint_reliability_fields
    fingerprint_duty_fields fingerprint_mix sx127x_bandwidth_bits
    requires_low_data_rate_optimization frame_period_ms samples_per_bundle offered_load_permille
    bundle_application_bytes max_bundle_airtime_ms application_airtime_ms modem
    application_milliseconds milliseconds microseconds total_quarter_symbols payload_symbols
    coded_blocks payload_numerator payload_denominator symbol_microseconds ceil_div
selected_is_valid = selected (λ p. is_valid p ≡ true) refl refl refl refl refl

-- The profile of a fingerprint.
named : ℕ → NetworkProfile
named f =
    if f == 740605144
    then sf7
    else if f == 3912122318
    then sf9
    else if f == 3757354806
    then sf10
    else if f == 62501302
    then sf12
    else sf12_range_test

named-fingerprint :
    (selector : ℕ)
    → named (fingerprint (profile_for_selector selector)) ≡ profile_for_selector selector
unfolding named is_valid is_valid_radio is_valid_timing fingerprint fingerprint_radio_fields
    fingerprint_geometry_fields fingerprint_traffic_fields fingerprint_reliability_fields
    fingerprint_duty_fields fingerprint_mix sx127x_bandwidth_bits
    requires_low_data_rate_optimization frame_period_ms samples_per_bundle offered_load_permille
    bundle_application_bytes max_bundle_airtime_ms application_airtime_ms modem
    application_milliseconds milliseconds microseconds total_quarter_symbols payload_symbols
    coded_blocks payload_numerator payload_denominator symbol_microseconds ceil_div
named-fingerprint = selected (λ p. named (fingerprint p) ≡ p) refl refl refl refl refl

-- Two selectors whose profiles have one fingerprint select one profile.
pub fingerprint_identifies :
    (a b : ℕ)
    → fingerprint (profile_for_selector a) ≡ fingerprint (profile_for_selector b)
    → profile_for_selector a ≡ profile_for_selector b
fingerprint_identifies a b e = sym (named-fingerprint a) ∙ ap named e ∙ named-fingerprint b
