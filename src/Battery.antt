-- ===== src/Battery.antt =====
-- platformio/src/power/BatteryMonitor.cpp: the battery's voltage and percentage from the analog pin. `F` is the
-- type `float`; its arithmetic is a parameter (`FloatArith`). `writeTelemetry`, which prints, is left out.
pub mod Latch
mod Checks
use smart_fires_io_t.Base.{ℕ, ◌+◌, Bool, false, not, ◌&&◌, ◌||◌, ltb, leb, if◌then◌else◌}
use smart_fires_io_t.Base.Int.{ℤ, pos, ltb_ℤ}
use smart_fires_io_t.Base.Word.{sub_u32}

pub record FloatArith (F : Type 0) : Type 0 where
  pub of_int : ℤ → F
  pub times : F → F → F
  pub over : F → F → F
  pub minus : F → F → F
  pub less : F → F → Bool
  pub at_most : F → F → Bool
  pub is_nan : F → Bool

pub record BatteryConfig (F : Type 0) : Type 0 where
  pub adc_ref_volts : F
  pub adc_max : ℕ
  pub divider_ratio : F
  pub min_voltage : F
  pub max_voltage : F
  pub low_voltage : F
  pub min_sample_period_ms : ℕ

pub record BatteryReading (F : Type 0) : Type 0 where
  pub raw : ℤ
  pub adc_volts : F
  pub battery_volts : F
  pub percent : F
  pub low : Bool
  pub valid : Bool
  pub timestamp_ms : ℕ

pub record BatteryMonitor (F : Type 0) : Type 0 where
  pub cfg : BatteryConfig F
  pub reading : BatteryReading F
  pub healthy : Bool
  pub last_sample_ms : ℕ

-- What the analog pin and `millis` read in a call of `sample`.
pub record Probe : Type 0 where
  pub ready_at : ℕ
  pub raw : ℤ
  pub stamped_at : ℕ
  pub sampled_at : ℕ

module _ {F : Type 0} (ops : FloatArith F) where
  unfoldable pub begin : BatteryMonitor F → Bool × BatteryMonitor F
  begin m =
      let c = m.cfg in
      let zero_volts = ops.of_int (pos 0) in
      let healthy =
        ltb 0 c.adc_max
        && ops.less zero_volts c.adc_ref_volts
        && ops.less zero_volts c.divider_ratio
        && ops.less c.min_voltage c.max_voltage in
      (healthy, record m { healthy = healthy })

  unfoldable pub ready : ℕ → BatteryMonitor F → Bool
  ready now m = m.healthy && leb m.cfg.min_sample_period_ms (sub_u32 now m.last_sample_ms)

  unfoldable pub clamp_percent : F → F
  clamp_percent percent =
      if ops.less percent (ops.of_int (pos 0))
      then ops.of_int (pos 0)
      else if ops.less (ops.of_int (pos 100)) percent
      then ops.of_int (pos 100)
      else percent

  abbrev pub is_out_of_range : ℕ → ℤ → Bool
  is_out_of_range adc_max raw = ltb_ℤ raw (pos 0) || ltb_ℤ (pos adc_max) raw

  unfoldable pub sample : Probe → BatteryMonitor F → Bool × BatteryMonitor F
  unfolding ready clamp_percent
  sample t m =
      let c = m.cfg in
      let old = m.reading in
      let noted : BatteryReading F = record old { raw = t.raw; timestamp_ms = t.stamped_at } in
      let adc_volts =
        ops.over (ops.times (ops.of_int t.raw) c.adc_ref_volts)
          (ops.of_int (pos (c.adc_max + 1))) in
      let volts = ops.times adc_volts c.divider_ratio in
      let percent =
        ops.times (ops.over (ops.minus volts c.min_voltage) (ops.minus c.max_voltage c.min_voltage))
          (ops.of_int (pos 100)) in
      let valid = not (ops.is_nan volts) in
      if not (ready t.ready_at m)
      then (false, m)
      else if is_out_of_range c.adc_max t.raw
      then (false, record m { reading = record noted { valid = false }; healthy = false })
      else (
        valid,
        record m {
          reading = record noted {
            adc_volts = adc_volts;
            battery_volts = volts;
            percent = clamp_percent percent;
            low = ops.at_most volts c.low_voltage;
            valid = valid;
          };
          last_sample_ms = t.sampled_at;
        },
      )
