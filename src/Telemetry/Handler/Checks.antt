-- ===== src/Telemetry/Handler/Checks.antt =====
-- The theorems on the accumulator, applied to whole-number readings at a bundle of two deltas.
use smart_fires_io_t.Base.{
  ℕ, ◌*◌, ◌%◌, ◌<◌, ◌≡◌, ◌⊎◌, inl, inr, true, false, [], ◌∷◌, ◌++◌, length, arith, refl,
}
use smart_fires_io_t.Base.Int.{pos, negsuc}
use smart_fires_io_t.Wire.Packet.{FullStatePayload}
use smart_fires_io_t.Wire.Fits
use smart_fires_io_t.Telemetry.Types.{FloatOps, SensorSnapshot, PacketHandler}
use smart_fires_io_t.Telemetry.Delta
use smart_fires_io_t.Telemetry.Delta.{make_delta}
use smart_fires_io_t.Telemetry.Delta.Accuracy.{IsAccurate, make_delta-IsAccurate}
use smart_fires_io_t.Telemetry.Handler.{new_handler, add_sample, push}
use smart_fires_io_t.Telemetry.Handler.Valid.{
  IsLawful, SnapshotFits, IsValid, push-IsValid, add_sample-IsValid, new_handler-IsValid,
}
use smart_fires_io_t.Telemetry.Handler.Bundle.{Closed, add_sample_outcome}

-- Whole numbers for `float`.
abbrev whole : FloatOps ℕ
whole = record {
  zero_float = 0;
  rounded_hundredths = λ x. x * 100 % 65536;
  rounded_tenths = λ x. x * 10 % 65536;
  signed_hundredths = λ x. pos (x * 100 % 32768);
  e7 = λ x. pos (x * 10000000 % 2147483648);
}

whole-IsLawful : IsLawful whole
whole-IsLawful = record {
  hundredths_fit = λ x. omega arith;
  tenths_fit = λ x. omega arith;
  signed_fit = λ x. (omega arith, omega arith);
  e7_fit = λ x. (omega arith, omega arith);
}

abbrev snapshot : SensorSnapshot ℕ
snapshot = record {
  session_time_ms = 10000;
  sensor_flags = 0x17;
  wind_mps = 3;
  temp_c = 25;
  humidity_pct = 40;
  pm1_0 = 1;
  pm2_5 = 2;
  pm4_0 = 3;
  pm10 = 4;
  lat_deg = 34;
  lon_deg = 18;
  battery_mv = 3900;
  battery_pct = 80;
  battery_valid = true;
  heading_deg = 90;
  heading_accuracy = 10;
  imu_valid = true;
}

snapshot-Fits : SnapshotFits snapshot
snapshot-Fits = record {
  time_fits = omega arith;
  flags_fit = omega arith;
  mv_fits = omega arith;
  pct_fits = omega arith;
  accuracy_fits = omega arith;
}

abbrev fresh : PacketHandler ℕ
fresh = new_handler whole 3 2 900000

fresh-IsValid : IsValid fresh
fresh-IsValid = new_handler-IsValid whole 3 2 900000 (omega arith) (omega arith) (omega arith)

push-IsValid_example : IsValid (push whole snapshot fresh).1
push-IsValid_example = push-IsValid whole snapshot fresh whole-IsLawful snapshot-Fits fresh-IsValid

abbrev first : FullStatePayload
first = record {
  session_time = 600000;
  sensor_flags = 0x13;
  wind_cms = 320;
  temp_cdegc = negsuc 249;
  humidity_cpct = 4510;
  pm1_0_ug10 = 12;
  pm2_5_ug10 = 20;
  pm4_0_ug10 = 24;
  pm10_ug10 = 25;
}

abbrev second : FullStatePayload
second = record first {
  session_time = 610100;
  temp_cdegc = negsuc 212;
  humidity_cpct = 4477;
  pm1_0_ug10 = 27;
}

state-Fits : (s : FullStatePayload) → (s ≡ first) ⊎ (s ≡ second) → Fits.FullStateFits s
state-Fits s (inl e) = rw e (record {
  session_time_fits = omega arith;
  sensor_flags_fits = omega arith;
  wind_cms_fits = omega arith;
  temp_cdegc_fits = (omega arith, omega arith);
  humidity_cpct_fits = omega arith;
  pm1_0_ug10_fits = omega arith;
  pm2_5_ug10_fits = omega arith;
  pm4_0_ug10_fits = omega arith;
  pm10_ug10_fits = omega arith;
})
state-Fits s (inr e) = rw e (record {
  session_time_fits = omega arith;
  sensor_flags_fits = omega arith;
  wind_cms_fits = omega arith;
  temp_cdegc_fits = (omega arith, omega arith);
  humidity_cpct_fits = omega arith;
  pm1_0_ug10_fits = omega arith;
  pm2_5_ug10_fits = omega arith;
  pm4_0_ug10_fits = omega arith;
  pm10_ug10_fits = omega arith;
})

make_delta-IsAccurate_example : IsAccurate first first second (make_delta first first second)
unfolding make_delta Delta.round_divide_signed Delta.clamp_to_int8 Delta.clamp_to_int16
    Delta.ticks_250ms
make_delta-IsAccurate_example =
    make_delta-IsAccurate first first second (state-Fits first (inl refl))
      (state-Fits second (inr refl)) (omega arith) refl

-- The handler with a reference and one delta.
abbrev half_full : PacketHandler ℕ
half_full = (add_sample second (add_sample first fresh).1).1

half_full-IsValid : IsValid half_full
half_full-IsValid =
    add_sample-IsValid second _
      (add_sample-IsValid first fresh fresh-IsValid (state-Fits first (inl refl)))
      (state-Fits second (inr refl))

add_sample_outcome_example :
    let r = add_sample second half_full in
    let ds = half_full.deltas ++ (make_delta half_full.ref half_full.prev_sample second ∷ []) in
    ((half_full.has_ref ≡ false)
      × (r.0 ≡ false)
      × (r.1.ref ≡ second)
      × (r.1.deltas ≡ [])
      × (r.1.has_ref ≡ true))
    ⊎ ((half_full.has_ref ≡ true)
        × (r.0 ≡ false)
        × (r.1.ref ≡ half_full.ref)
        × (r.1.deltas ≡ ds)
        × (r.1.prev_sample ≡ second)
        × (length ds < half_full.max_deltas))
    ⊎ ((half_full.has_ref ≡ true) × (length ds ≡ half_full.max_deltas) × Closed half_full ds r)
add_sample_outcome_example =
    add_sample_outcome second half_full half_full-IsValid (state-Fits second (inr refl))
