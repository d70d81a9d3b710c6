-- ===== src/Battery/Latch.antt =====
-- What a reading out of range does to `BatteryMonitor` of platformio/src/power/BatteryMonitor.cpp.
use smart_fires_io_t.Base.{
  ◌≡◌, refl, Bool, true, false, not, List, [], ◌∷◌, length, replicate, arith, if_cases,
}
use smart_fires_io_t.Battery.{
  FloatArith, BatteryMonitor, Probe, begin, ready, is_out_of_range, sample,
}

module _ {F : Type 0} (ops : FloatArith F) where
  -- A sequence of calls of `sample`.
  unfoldable pub samples : List Probe → BatteryMonitor F → List Bool × BatteryMonitor F
  unfolding sample
  samples [] m = ([], m)
  samples (t ∷ ts) m =
      let (ok, m') = sample ops t m in let (oks, m'') = samples ts m' in (ok ∷ oks, m'')

  unhealthy_sample :
      (t : Probe) (m : BatteryMonitor F) → m.healthy ≡ false → sample ops t m ≡ (false, m)
  unfolding sample ready
  unhealthy_sample t m off = rw off refl

  unhealthy_samples :
      (ts : List Probe) (m : BatteryMonitor F)
      → m.healthy ≡ false
      → samples ts m ≡ (replicate (length ts) false, m)
  unfolding samples
  unhealthy_samples [] m off = refl
  unhealthy_samples (t ∷ ts) m off = rw (unhealthy_sample t m off, unhealthy_samples ts m off) refl

  -- One reading out of range ends the readings: where the monitor is ready and the pin reads below 0 or above
  -- the converter's maximum, the call returns false and leaves the reading invalid, and every later
  -- sequence of calls of `sample` returns false each time and changes nothing, until `begin` is called again.
  pub bad_reading_latches :
      (t : Probe) (m : BatteryMonitor F) (ts : List Probe)
      → ready ops t.ready_at m ≡ true
      → is_out_of_range ops m.cfg.adc_max t.raw ≡ true
      → let r = sample ops t m in
        (r.0 ≡ false)
        × (r.1.reading.valid ≡ false)
        × (samples ts r.1 ≡ (replicate (length ts) false, r.1))
        × (begin ops r.1).0 ≡ (begin ops m).0
  unfolding sample begin
  bad_reading_latches t m ts is_ready bad =
      let P = λ (r : Bool × BatteryMonitor F).
        (r.0 ≡ false)
        × (r.1.reading.valid ≡ false)
        × (samples ts r.1 ≡ (replicate (length ts) false, r.1))
        × (begin ops r.1).0 ≡ (begin ops m).0 in
      if_cases P (not (ready ops t.ready_at m)) (λ waits. absurd (ground (arith, is_ready, waits)))
        (λ _.
          if_cases P (is_out_of_range ops m.cfg.adc_max t.raw)
            (λ _. (refl, refl, unhealthy_samples ts _ refl, refl))
            (λ fine. absurd (ground (arith, bad, fine))))
