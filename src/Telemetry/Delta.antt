-- ===== src/Telemetry/Delta.antt =====
-- `makeDelta` of PacketHandler.cpp and the roundings that it uses. An int32 sum keeps its wrap.
pub mod Flags
pub mod Accuracy
use Prim.Native.Nat.{bit_or}
use smart_fires_io_t.Base.{ℕ, ◌+◌, ◌/◌, Bool, ltb, if◌then◌else◌}
use smart_fires_io_t.Base.Int.{ℤ, pos, negsuc, ◌+ℤ◌, ◌-ℤ◌, quot, ltb_ℤ, leb_ℤ, int8, int16, int32}
use smart_fires_io_t.Base.Word.{u8, u32, sub_u32}
use smart_fires_io_t.Wire.Constants.{
  delta_flag_dt_clamped, delta_flag_temp_clamped, delta_flag_humid_clamped, delta_flag_pm1_clamped,
  delta_flag_pm2_5_clamped, delta_flag_pm4_clamped, delta_flag_pm10_clamped,
}
use smart_fires_io_t.Wire.Packet.{FullStatePayload, DeltaPayload}

unfoldable pub round_divide_signed : ℤ → ℕ → ℤ
round_divide_signed value divisor =
    if leb_ℤ (pos 0) value
    then quot (int32 (value +ℤ pos (divisor / 2))) divisor
    else int32 (pos 0 -ℤ quot (int32 (int32 (pos 0 -ℤ value) +ℤ pos (divisor / 2))) divisor)

-- The value, and the flags that the reference parameter holds afterwards.
unfoldable pub clamp_to_int8 : ℤ → ℕ → ℕ → ℤ × ℕ
clamp_to_int8 value flag_bit flags =
    if ltb_ℤ value (negsuc 127)
    then (negsuc 127, bit_or flags flag_bit)
    else if ltb_ℤ (pos 127) value
    then (pos 127, bit_or flags flag_bit)
    else (int8 value, flags)

unfoldable pub clamp_to_int16 : ℤ → ℕ → ℕ → ℤ × ℕ
clamp_to_int16 value flag_bit flags =
    if ltb_ℤ value (negsuc 32767)
    then (negsuc 32767, bit_or flags flag_bit)
    else if ltb_ℤ (pos 32767) value
    then (pos 32767, bit_or flags flag_bit)
    else (int16 value, flags)

-- The time step in 250 ms ticks, rounded and clamped to a byte.
unfoldable pub ticks_250ms : ℕ → ℕ → ℕ × ℕ
ticks_250ms dt_ms flags =
    let dt_ticks = u32 (dt_ms + 125) / 250 in
    if ltb 255 dt_ticks then (255, bit_or flags delta_flag_dt_clamped) else (u8 dt_ticks, flags)

unfoldable pub make_delta : FullStatePayload → FullStatePayload → FullStatePayload → DeltaPayload
make_delta ref prev s =
    let (dt, f0) = ticks_250ms (sub_u32 s.session_time prev.session_time) 0 in
    let (temp, f1) =
      clamp_to_int8 (round_divide_signed (s.temp_cdegc -ℤ ref.temp_cdegc) 10)
        delta_flag_temp_clamped f0 in
    let (humidity, f2) =
      clamp_to_int8 (round_divide_signed (pos s.humidity_cpct -ℤ pos ref.humidity_cpct) 20)
        delta_flag_humid_clamped f1 in
    let (pm1, f3) =
      clamp_to_int8 (round_divide_signed (pos s.pm1_0_ug10 -ℤ pos ref.pm1_0_ug10) 10)
        delta_flag_pm1_clamped f2 in
    let (pm25, f4) =
      clamp_to_int16 (pos s.pm2_5_ug10 -ℤ pos ref.pm2_5_ug10) delta_flag_pm2_5_clamped f3 in
    let (pm4, f5) =
      clamp_to_int8 (round_divide_signed (pos s.pm4_0_ug10 -ℤ pos ref.pm4_0_ug10) 10)
        delta_flag_pm4_clamped f4 in
    let (pm10, f6) =
      clamp_to_int16 (pos s.pm10_ug10 -ℤ pos ref.pm10_ug10) delta_flag_pm10_clamped f5 in
    record {
      dt_ticks_250ms = dt;
      wind_cms = s.wind_cms;
      temp_delta_deci_c = temp;
      humidity_delta_0p2pct = humidity;
      pm1_0_delta_ug = pm1;
      pm2_5_delta_ug10 = pm25;
      pm4_0_delta_ug = pm4;
      pm10_delta_ug10 = pm10;
      flags = f6;
    }
