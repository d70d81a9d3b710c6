-- ===== src/Telemetry/Delta/Accuracy.antt =====
-- `makeDelta` of PacketHandler.cpp against the sample that it describes.
use smart_fires_io_t.Base.{ℕ, ◌+◌, ◌*◌, ◌≤◌, ◌<◌, ◌≡◌, arith, refl}
use smart_fires_io_t.Base.Int.{ℤ, pos, ◌+ℤ◌, ◌-ℤ◌, times, InRange}
use smart_fires_io_t.Base.Word.{sub_u32}
use smart_fires_io_t.Wire.Packet.{FullStatePayload, DeltaPayload}
use smart_fires_io_t.Wire.Fits
use smart_fires_io_t.Telemetry.Delta.{
  round_divide_signed, clamp_to_int8, clamp_to_int16, ticks_250ms, make_delta,
}
use smart_fires_io_t.Telemetry.Delta.Flags.{
  Clamped, clamp_to_int8-Clamped, clamp_to_int16-Clamped, Near, round_10, round_20, or_bytes,
}

ticks-lt : (dt : ℕ) → ((ticks_250ms dt 0).0 < 256) × ((ticks_250ms dt 0).1 < 256)
unfolding ticks_250ms
ticks-lt dt = ground (arith, or_bytes 0 1 (omega arith) (omega arith))

ticks_near :
    (dt : ℕ)
    → dt < 4294967171
    → (ticks_250ms dt 0).1 ≡ 0
    → ((ticks_250ms dt 0).0 * 250 ≤ dt + 125) × (dt ≤ (ticks_250ms dt 0).0 * 250 + 125)
unfolding ticks_250ms
ticks_near dt h e = ground (arith, or_bytes 0 1 (omega arith) (omega arith))

Near-shift : (k : ℕ) (a b t : ℤ) → Near k t (a -ℤ b) → Near k (b +ℤ t) a
Near-shift k a b t h = ground arith

Near-zero : (a b t : ℤ) → t ≡ a -ℤ b → Near 0 (b +ℤ t) a
Near-zero a b t h = ground arith

-- A difference of two 16-bit values.
diff_pos : (a b : ℕ) → a < 65536 → b < 65536 → InRange 65536 (pos a -ℤ pos b)
diff_pos a b h k = ground arith

diff_int : (a b : ℤ) → InRange 32768 a → InRange 32768 b → InRange 65536 (a -ℤ b)
diff_int a b h k = ground arith

module _ (ref prev s : FullStatePayload) where
  -- The fields of `make_delta`, one after the other.
  abbrev dt_ms : ℕ
  dt_ms = sub_u32 s.session_time prev.session_time

  abbrev t0 : ℕ × ℕ
  t0 = ticks_250ms dt_ms 0

  abbrev t1 : ℤ × ℕ
  t1 = clamp_to_int8 (round_divide_signed (s.temp_cdegc -ℤ ref.temp_cdegc) 10) 2 t0.1

  abbrev t2 : ℤ × ℕ
  t2 = clamp_to_int8 (round_divide_signed (pos s.humidity_cpct -ℤ pos ref.humidity_cpct) 20) 4 t1.1

  abbrev t3 : ℤ × ℕ
  t3 = clamp_to_int8 (round_divide_signed (pos s.pm1_0_ug10 -ℤ pos ref.pm1_0_ug10) 10) 8 t2.1

  abbrev t4 : ℤ × ℕ
  t4 = clamp_to_int16 (pos s.pm2_5_ug10 -ℤ pos ref.pm2_5_ug10) 16 t3.1

  abbrev t5 : ℤ × ℕ
  t5 = clamp_to_int8 (round_divide_signed (pos s.pm4_0_ug10 -ℤ pos ref.pm4_0_ug10) 10) 32 t4.1

  abbrev t6 : ℤ × ℕ
  t6 = clamp_to_int16 (pos s.pm10_ug10 -ℤ pos ref.pm10_ug10) 64 t5.1

  c1 : Clamped 128 2 t0.1 (round_divide_signed (s.temp_cdegc -ℤ ref.temp_cdegc) 10) t1
  c1 = clamp_to_int8-Clamped _ 2 t0.1 (omega arith) (omega arith) (ticks-lt dt_ms).1

  c2 : Clamped 128 4 t1.1 (round_divide_signed (pos s.humidity_cpct -ℤ pos ref.humidity_cpct) 20) t2
  c2 = clamp_to_int8-Clamped _ 4 t1.1 (omega arith) (omega arith) c1.byte

  c3 : Clamped 128 8 t2.1 (round_divide_signed (pos s.pm1_0_ug10 -ℤ pos ref.pm1_0_ug10) 10) t3
  c3 = clamp_to_int8-Clamped _ 8 t2.1 (omega arith) (omega arith) c2.byte

  c4 : Clamped 32768 16 t3.1 (pos s.pm2_5_ug10 -ℤ pos ref.pm2_5_ug10) t4
  c4 = clamp_to_int16-Clamped _ 16 t3.1 (omega arith) (omega arith) c3.byte

  c5 : Clamped 128 32 t4.1 (round_divide_signed (pos s.pm4_0_ug10 -ℤ pos ref.pm4_0_ug10) 10) t5
  c5 = clamp_to_int8-Clamped _ 32 t4.1 (omega arith) (omega arith) c4.byte

  c6 : Clamped 32768 64 t5.1 (pos s.pm10_ug10 -ℤ pos ref.pm10_ug10) t6
  c6 = clamp_to_int16-Clamped _ 64 t5.1 (omega arith) (omega arith) c5.byte

  -- A delta fits the wire struct whenever the sample's wind speed fits its field.
  pub make_delta-DeltaFits : s.wind_cms < 65536 → Fits.DeltaFits (make_delta ref prev s)
  unfolding make_delta
  make_delta-DeltaFits h = record {
    dt_ticks_250ms_fits = (ticks-lt dt_ms).0;
    wind_cms_fits = h;
    temp_delta_deci_c_fits = c1.fits;
    humidity_delta_0p2pct_fits = c2.fits;
    pm1_0_delta_ug_fits = c3.fits;
    pm2_5_delta_ug10_fits = c4.fits;
    pm4_0_delta_ug_fits = c5.fits;
    pm10_delta_ug10_fits = c6.fits;
    flags_fits = c6.byte;
  }

  -- How near a delta comes to the sample: half a step of every field, and 0 where a step is one unit.
  pub record IsAccurate (d : DeltaPayload) : Type 0 where
    pub dt_high : d.dt_ticks_250ms * 250 ≤ dt_ms + 125
    pub dt_low : dt_ms ≤ d.dt_ticks_250ms * 250 + 125
    pub wind : d.wind_cms ≡ s.wind_cms
    pub temp : Near 5 (ref.temp_cdegc +ℤ times d.temp_delta_deci_c 10) s.temp_cdegc
    pub humidity :
        Near 10 (pos ref.humidity_cpct +ℤ times d.humidity_delta_0p2pct 20) (pos s.humidity_cpct)
    pub pm1_0 : Near 5 (pos ref.pm1_0_ug10 +ℤ times d.pm1_0_delta_ug 10) (pos s.pm1_0_ug10)
    pub pm2_5 : Near 0 (pos ref.pm2_5_ug10 +ℤ d.pm2_5_delta_ug10) (pos s.pm2_5_ug10)
    pub pm4_0 : Near 5 (pos ref.pm4_0_ug10 +ℤ times d.pm4_0_delta_ug 10) (pos s.pm4_0_ug10)
    pub pm10 : Near 0 (pos ref.pm10_ug10 +ℤ d.pm10_delta_ug10) (pos s.pm10_ug10)

  Near-10 :
      (a b r : ℤ)
      → InRange 65536 (a -ℤ b)
      → r ≡ round_divide_signed (a -ℤ b) 10
      → Near 5 (b +ℤ times r 10) a
  Near-10 a b r h e = rw e (Near-shift 5 a b _ (round_10 (a -ℤ b) h))

  Near-20 :
      (a b r : ℤ)
      → InRange 65536 (a -ℤ b)
      → r ≡ round_divide_signed (a -ℤ b) 20
      → Near 10 (b +ℤ times r 20) a
  Near-20 a b r h e = rw e (Near-shift 10 a b _ (round_20 (a -ℤ b) h))

  -- A delta whose flags are 0 gives the sample back, for readings that fit the wire's fields and a step of time
  -- below 2^32 - 125 ms: added to the reference, its fields are within half a step of the sample's readings,
  -- that is 0.05 degrees, 0.1 % of humidity and 0.5 ug/m3 of PM1.0 and PM4.0, and the wind, PM2.5 and PM10 are
  -- exact. Its 250 ms ticks are within 125 ms of the time since the previous sample, not since the reference.
  pub make_delta-IsAccurate :
      Fits.FullStateFits ref
      → Fits.FullStateFits s
      → sub_u32 s.session_time prev.session_time < 4294967171
      → (make_delta ref prev s).flags ≡ 0
      → IsAccurate (make_delta ref prev s)
  unfolding make_delta
  make_delta-IsAccurate rv sv h e =
      let e6 : t6.1 ≡ 0 = e in
      let e5 : t5.1 ≡ 0 = omega (arith, c6.keeps) in
      let e4 : t4.1 ≡ 0 = omega (arith, c5.keeps) in
      let e3 : t3.1 ≡ 0 = omega (arith, c4.keeps) in
      let e2 : t2.1 ≡ 0 = omega (arith, c3.keeps) in
      let e1 : t1.1 ≡ 0 = omega (arith, c2.keeps) in
      let e0 : t0.1 ≡ 0 = omega (arith, c1.keeps) in
      record {
        dt_high = (ticks_near dt_ms h e0).0;
        dt_low = (ticks_near dt_ms h e0).1;
        wind = refl;
        temp =
            Near-10 s.temp_cdegc ref.temp_cdegc t1.0
              (diff_int s.temp_cdegc ref.temp_cdegc sv.temp_cdegc_fits rv.temp_cdegc_fits)
              (c1.exact e1);
        humidity =
            Near-20 (pos s.humidity_cpct) (pos ref.humidity_cpct) t2.0
              (diff_pos s.humidity_cpct ref.humidity_cpct sv.humidity_cpct_fits
                rv.humidity_cpct_fits)
              (c2.exact e2);
        pm1_0 =
            Near-10 (pos s.pm1_0_ug10) (pos ref.pm1_0_ug10) t3.0
              (diff_pos s.pm1_0_ug10 ref.pm1_0_ug10 sv.pm1_0_ug10_fits rv.pm1_0_ug10_fits)
              (c3.exact e3);
        pm2_5 = Near-zero (pos s.pm2_5_ug10) (pos ref.pm2_5_ug10) t4.0 (c4.exact e4);
        pm4_0 =
            Near-10 (pos s.pm4_0_ug10) (pos ref.pm4_0_ug10) t5.0
              (diff_pos s.pm4_0_ug10 ref.pm4_0_ug10 sv.pm4_0_ug10_fits rv.pm4_0_ug10_fits)
              (c5.exact e5);
        pm10 = Near-zero (pos s.pm10_ug10) (pos ref.pm10_ug10) t6.0 (c6.exact e6);
      }
