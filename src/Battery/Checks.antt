-- ===== src/Battery/Checks.antt =====
-- A battery that is read in whole millivolts, and the theorem applied to it.
use smart_fires_io_t.Base.{ℕ, ◌*◌, ◌/◌, ◌≡◌, refl, true, false, [], ◌∷◌}
use smart_fires_io_t.Base.Int.{ℤ, pos, pos_part, ltb_ℤ, leb_ℤ, ◌-ℤ◌}
use smart_fires_io_t.Battery.{FloatArith, BatteryMonitor, Probe, begin, ready, sample}
use smart_fires_io_t.Battery.Latch.{samples, bad_reading_latches}

abbrev whole : FloatArith ℤ
whole = record {
  of_int = λ n. n;
  times = λ a b. pos (pos_part a * pos_part b);
  over = λ a b. pos (pos_part a / pos_part b);
  minus = λ a b. a -ℤ b;
  less = ltb_ℤ;
  at_most = leb_ℤ;
  is_nan = λ _. false;
}

abbrev monitor : BatteryMonitor ℤ
monitor = record {
  cfg = record {
    adc_ref_volts = pos 3300;
    adc_max = 1023;
    divider_ratio = pos 2;
    min_voltage = pos 3000;
    max_voltage = pos 4200;
    low_voltage = pos 3300;
    min_sample_period_ms = 1000;
  };
  reading = record {
    raw = pos 0;
    adc_volts = pos 0;
    battery_volts = pos 0;
    percent = pos 0;
    low = false;
    valid = false;
    timestamp_ms = 0;
  };
  healthy = true;
  last_sample_ms = 0;
}

abbrev probe : ℕ → ℤ → Probe
probe now raw = record { ready_at = now; raw = raw; stamped_at = now; sampled_at = now }

-- 600 steps of 1024 at 3.3 V, behind a divider by two.
sample_run : (sample whole (probe 1000 (pos 600)) monitor).1.reading.battery_volts ≡ pos 3866
unfolding sample
sample_run = refl

bad_reading_latches_example :
    let r = sample whole (probe 1000 (pos 1024)) monitor in
    (r.0 ≡ false)
    × (r.1.reading.valid ≡ false)
    × (samples whole (probe 2000 (pos 600) ∷ probe 3000 (pos 600) ∷ []) r.1
        ≡ (false ∷ false ∷ [], r.1))
    × (begin whole r.1).0 ≡ (begin whole monitor).0
unfolding ready
bad_reading_latches_example =
    bad_reading_latches whole (probe 1000 (pos 1024)) monitor
      (probe 2000 (pos 600) ∷ probe 3000 (pos 600) ∷ []) refl refl
